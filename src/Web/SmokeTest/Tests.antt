-- ===== src/Web/SmokeTest/Tests.antt =====
-- The smoke test at a concrete setting.
use micro_ai_paygate.Prelude.{codes, ◌≡◌, ◌↔◌, none, some}
use micro_ai_paygate.Js.Exec.{ok}
use micro_ai_paygate.Web.X402.Tests.{host, ethers, to_text, payment_required}
use micro_ai_paygate.Web.SmokeTest.{Setting}
use micro_ai_paygate.Web.SmokeTest.Main.{main, exit_code, at_first}
use micro_ai_paygate.Web.SmokeTest.Exits.{all_passed, exit_code-zero_iff}

-- A gateway that refuses all.
abbrev setting : Setting
setting = record {
  gateway = codes "https://g";
  verifier = codes "https://v";
  origin = codes "https://o";
  fetch = λ calls url init. ok payment_required;
  sign = λ calls typed. ok (codes "0x51");
  address = codes "0xA";
  host = host;
  ethers = ethers;
  get_address = λ t. some t;
  atob = λ t. none;
  to_text = to_text;
  now_seconds = 5000;
}

exit_code-zero_iff_example :
    (exit_code (main setting at_first) ≡ 0)
    ↔ (((main setting at_first).0 ≡ ok tt) × ((main setting at_first).1.checks ≡ all_passed))
exit_code-zero_iff_example = exit_code-zero_iff setting
