-- ===== src/Benchmark.antt =====
-- benchmark/src: the parameter sweep.
pub mod Sweep
pub mod Generate
