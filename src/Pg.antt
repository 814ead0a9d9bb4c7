-- ===== src/Pg.antt =====
-- extensions/pg/src: the connection pool of the PostgreSQL client.
pub mod Pool
