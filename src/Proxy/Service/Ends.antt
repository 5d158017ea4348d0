-- ===== src/Proxy/Service/Ends.antt =====
-- proxy_service.rs: every connection is served to its end.
