-- ===== src/Application/MetricsService/Tests.antt =====
-- The comparison of two small samples.
use lx.Base.{[], ◌∷◌, ℕ, ℤ}
use lx.Application.MetricsService.{compare}
use lx.Application.MetricsService.Percentages.{IsMeasured, compare-IsMeasured}
use lx.Domain.{MetricsSnapshot}

abbrev sample_at : ℕ → ℕ → ℕ → MetricsSnapshot
sample_at total idle ticks = record {
  system = record {
    cpu = record { total_ticks = total; idle_ticks = idle };
    memory_total_bytes = 100;
    memory_available_bytes = 30;
    uptime = 5000;
    logical_cpu_count = 2;
    hostname = [];
  };
  processes = record { pid = ℤ.pos 7; start_time_ticks = 3; cpu_time_ticks = ticks } ∷ [];
}

compare-IsMeasured_example :
    IsMeasured
      (sample_at 100 40 10)
      (sample_at 200 90 35)
      (compare (sample_at 100 40 10) (sample_at 200 90 35))
compare-IsMeasured_example = compare-IsMeasured (sample_at 100 40 10) (sample_at 200 90 35)
