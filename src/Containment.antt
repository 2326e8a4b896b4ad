-- ===== src/Containment.antt =====
-- drishti/m3_dynamic/containment.py: is the guest cut off from the network, and can the probe tell?
-- `run` stands for the injectable `ProbeRunner`: it takes the state of the world and a command, and
-- returns the command's output and the new state. Texts are lists of code points; `\d` and `int` are
-- those of ASCII digits.
pub mod Parse
pub mod Verdict
pub mod Admission
use c_s_cool_stuff.Prelude.{
  ℕ, ◌+◌, ◌-◌, ◌*◌, Bool, true, false, not, Option, none, some, List, [], ◌∷◌, ◌++◌, ◌==◌, Codes,
  codes, without_prefix, is_digit, decimal, if◌then◌else◌,
}

abbrev pub timeout_rc : ℕ
timeout_rc = 124

abbrev pub marker : Codes
marker = codes "DRISHTI_RC="

-- `int` of a text that begins with digits, as far as they go.
unfoldable pub read_digits : ℕ → Codes → ℕ
read_digits n [] = n
read_digits n (c ∷ s) =
    let rest = read_digits (n * 10 + (c - b'0')) s in if is_digit c then rest else n

-- `(\d+)` at the beginning of the text.
unfoldable pub digits_here : Codes → Option ℕ
unfolding read_digits
digits_here [] = none
digits_here (c ∷ s) = if is_digit c then some (read_digits 0 (c ∷ s)) else none

abbrev marked_here : Codes → Option ℕ
marked_here s = elim (without_prefix marker s) [ none ↦ none | some rest ↦ digits_here rest ]

-- `RC_MARKER.search`: the leftmost match.
unfoldable pub search_rc : Codes → Option ℕ
unfolding without_prefix digits_here
search_rc [] = none
search_rc (c ∷ s) =
    let later = search_rc s in elim (marked_here (c ∷ s)) [ none ↦ later | some rc ↦ some rc ]

unfoldable pub parse_rc : Codes → ℕ
unfolding search_rc
parse_rc output = elim (search_rc output) [ none ↦ timeout_rc | some rc ↦ rc ]

pub record Target : Type 0 where
  pub host : Codes
  pub port : ℕ

-- `NEGATIVE_CONTROL`
abbrev pub negative_control : Target
negative_control = record { host = codes "127.0.0.1"; port = 1 }

abbrev pub positive_control : Target
positive_control = record { host = codes "127.0.0.1"; port = 45999 }

abbrev pub metadata_server : Target
metadata_server = record { host = codes "169.254.169.254"; port = 80 }

abbrev pub dns_server : Target
dns_server = record { host = codes "8.8.8.8"; port = 53 }

abbrev pub web_server : Target
web_server = record { host = codes "1.1.1.1"; port = 443 }

abbrev pub vpc_host : Target
vpc_host = record { host = codes "10.0.0.1"; port = 22 }

-- `FORBIDDEN`
abbrev pub forbidden : List Target
forbidden = metadata_server ∷ dns_server ∷ web_server ∷ vpc_host ∷ []

pub record ProbeResult : Type 0 where
  pub target : Target
  pub reachable : Bool
  pub rc : ℕ

pub data Reason : Type 0 where
  negative_reachable positive_unreachable distinguishes : Reason
  reachable_from_inside : List Target → Reason

pub record ContainmentReport : Type 0 where
  pub verified : Bool
  pub probe_trustworthy : Bool
  pub results : List ProbeResult
  pub failures : List Target
  pub reason : Reason

-- `probe_command`, with its timeout of three seconds
unfoldable pub probe_command : Target → Codes
probe_command t =
    codes "toybox nc -w 3 "
    ++ (t.host
        ++ (codes " "
            ++ (decimal t.port ++ codes " </dev/null >/dev/null 2>&1; echo DRISHTI_RC=$?")))

abbrev pub listen_command : Codes
listen_command = codes "(toybox nc -l -p 45999 >/dev/null 2>&1 &) ; sleep 1; echo DRISHTI_RC=0"

-- `r.host:r.port` of the results that are reachable
unfoldable pub failures_of : List ProbeResult → List Target
failures_of [] = []
failures_of (r ∷ rs) = let rest = failures_of rs in if r.reachable then r.target ∷ rest else rest

abbrev pub is_empty {ℓ} : {A : Type ℓ} → List A → Bool
is_empty [] = true
is_empty (x ∷ xs) = false

unfoldable pub report_on : Reason → List ProbeResult → ContainmentReport
report_on reason results =
    let failures = failures_of results in
    record {
      verified = is_empty failures;
      probe_trustworthy = true;
      results = results;
      failures = failures;
      reason = if is_empty failures then reason else reachable_from_inside failures;
    }

abbrev untrustworthy : Reason → ContainmentReport
untrustworthy reason = record {
  verified = false;
  probe_trustworthy = false;
  results = [];
  failures = [];
  reason = reason;
}

module _ (World : Type 0) (run : World → Codes → Codes × World) where
  unfoldable pub is_reachable : World → Target → ProbeResult × World
  unfolding parse_rc
  is_reachable w t =
      let (output, w') = run w (probe_command t) in
      let rc = parse_rc output in (record { target = t; reachable = rc == 0; rc = rc }, w')

  unfoldable pub positive_probe : World → (Bool × Reason) × World
  positive_probe w =
      let (_, w₁) = run w listen_command in
      let (positive, w₂) = is_reachable w₁ positive_control in
      if not positive.reachable
      then ((false, positive_unreachable), w₂)
      else ((true, distinguishes), w₂)

  unfoldable pub assert_probe_trustworthy : World → (Bool × Reason) × World
  assert_probe_trustworthy w =
      let (negative, w₁) = is_reachable w negative_control in
      if negative.reachable then ((false, negative_reachable), w₁) else positive_probe w₁

  unfoldable pub probe_all : World → List Target → List ProbeResult × World
  probe_all w [] = ([], w)
  probe_all w (t ∷ ts) =
      let (r, w₁) = is_reachable w t in let (rs, w₂) = probe_all w₁ ts in (r ∷ rs, w₂)

  unfoldable pub verify : World → ContainmentReport × World
  verify w =
      let ((trustworthy, reason), w₁) = assert_probe_trustworthy w in
      let (results, w₂) = probe_all w₁ forbidden in
      if trustworthy then (report_on reason results, w₂) else (untrustworthy reason, w₁)

  -- `none` is `ContainmentError`.
  unfoldable pub require_containment : World → Option ContainmentReport × World
  require_containment w =
      let (report, w') = verify w in if report.verified then (some report, w') else (none, w')
