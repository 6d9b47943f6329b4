-- ===== src/Tests/Values.antt =====
-- Values for the runs: whole numbers in place of the floats, and a clock.
use oprofiler.Base.{ℕ, ◌+◌, ◌-◌, ◌*◌, ◌/◌, false, [], some, ltb, leb, max, min, Result, done}
use oprofiler.Base.Text.{Text, codes, to_decimal}
use oprofiler.Model.Floats.{Host}
use oprofiler.Model.Rows.{JvmTarget}
use oprofiler.App.State.{Now}

abbrev pub whole_host : Host ℕ
whole_host = record {
  of_nat = λ n. n;
  to_u64 = λ n. n;
  as_f32 = λ n. n;
  add = λ a b. a + b;
  sub = λ a b. a - b;
  mul = λ a b. a * b;
  div = λ a b. a / b;
  lt = λ a b. ltb a b;
  ge = λ a b. leb b a;
  f_max = λ a b. max a b;
  clamp = λ x lo hi. max lo (min x hi);
  fixed = λ n x. to_decimal x;
  parses = λ t. false;
  parse_f64 = λ t. 0;
  as_secs = λ n. n / 1_000_000_000;
  to_lowercase = λ t. t;
  file_name = λ t. some t;
}

abbrev pub clock : ℕ → Now
clock seconds = record { instant = seconds * 1_000_000_000; stamp = codes "12:00:00" }

abbrev pub demo_target : JvmTarget
demo_target = record {
  pid = 4711;
  display_name = codes "Demo";
  main_class = codes "shop.Demo";
  arguments = [];
  profiled = false;
}

abbrev pub clipboard : Text → Result (Unit {0})
clipboard text = done tt
