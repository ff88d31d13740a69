-- ===== src/Hashcash.antt =====
-- src/hashcash: the proof-of-work challenge. `Util` is hashcash.util.ts, `Service` is
-- hashcash.service.ts with the counters of hashcash-metrics.ts.
pub mod Util
pub mod Service
