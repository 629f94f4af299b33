-- ===== src/Gateway.antt =====
-- connector_gateway: the limit on the rate of public requests.
pub mod RateLimit
