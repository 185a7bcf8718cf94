-- ===== src/Gateway/Transfer/Totals.antt =====
-- An import accounts for each item and keeps the tables consistent.
use adaptive_api_routing_gat.Base.Time.{Time}
use adaptive_api_routing_gat.Store.Entities
