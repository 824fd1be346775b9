-- ===== src/Examples/Lines.antt =====
-- A line of a client at the server with one shared pipeline.
use gstd_1_x.Server.Sound.{IsSoundRest}
use gstd_1_x.Examples.Clients.{bare}

pub bare-IsSoundRest : IsSoundRest bare
bare-IsSoundRest = record {
  session_found = λ n w. (λ e. cc, λ e. cc);
  pipeline_found = λ p n w. (λ e. cc, λ e. cc);
  read_found = λ o n w. (λ e. cc, λ e. cc);
  created_found = λ o n d w e. cc;
}
