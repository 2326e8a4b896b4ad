-- ===== src/Hypotheses.antt =====
-- drishti/m2_static/hypotheses.py, less a hypothesis's statement, a text for display, and its fresh id.
-- The tests and the parts of each hypothesis are functions of its kind.
pub mod Laws
use c_s_cool_stuff.Prelude.{
  ℕ, String, Bool, true, false, not, ◌&&◌, ◌||◌, Option, none, some, List, [], ◌∷◌, ◌++◌, leb, take,
  elem, All, Any, if◌then◌else◌, ◌≡◌, ◌≤◌, refl, ◌↔◌, ◌⊎◌, inl, inr, arith, length, Bool-cases, any,
  keep_if,
}

pub data HypothesisKind : Type 0 where
  target_app_probe secondary_payload otp_exfil overlay_attack : HypothesisKind
  accessibility_abuse c2_beacon : HypothesisKind

pub data Probe : Type 0 where
  no_probe cipher_dump generative_c2 : Probe
  install_packages : List String → Probe

pub record Hypothesis : Type 0 where
  pub kind : HypothesisKind
  pub target_apis : List String
  pub suggested_probe : Probe
  pub priority : ℕ
  pub evidence_refs : List String

-- The arguments of `derive_hypotheses`: `rule_ids` are those of the permission combos.
pub record Facts : Type 0 where
  pub sink_hits : List String
  pub rule_ids : List String
  pub package_strings : List String
  pub urls : List String
  pub dcl_indicators : List String
  pub evidence_refs : List String

abbrev pub target_packages : List String
target_packages = "com.sbi.yono" ∷ "com.phonepe.app" ∷ "net.one97.paytm" ∷ []

-- `sorted(set(package_strings).intersection(_TARGET_PACKAGES))`: the targets in the order of texts.
abbrev sorted_targets : List String
sorted_targets = "com.phonepe.app" ∷ "com.sbi.yono" ∷ "net.one97.paytm" ∷ []

unfoldable pub candidates : List String → List String
candidates package_strings = keep_if (λ t. elem t package_strings) sorted_targets

abbrev pub is_filled : List String → Bool
is_filled [] = false
is_filled (x ∷ xs) = true

-- The six tests.
unfoldable pub applies : Facts → HypothesisKind → Bool
applies f HypothesisKind.target_app_probe =
    elem "pkg_query" f.sink_hits && is_filled (candidates f.package_strings)
applies f HypothesisKind.secondary_payload =
    is_filled f.dcl_indicators || elem "dex_load" f.sink_hits
applies f HypothesisKind.otp_exfil =
    elem "OTP_THEFT_SURFACE" f.rule_ids && elem "network" f.sink_hits
applies f HypothesisKind.overlay_attack =
    elem "OVERLAY_CREDENTIAL_THEFT" f.rule_ids || elem "overlay" f.sink_hits
applies f HypothesisKind.accessibility_abuse = elem "ACCESSIBILITY_ABUSE" f.rule_ids
applies f HypothesisKind.c2_beacon = is_filled f.urls && elem "network" f.sink_hits

unfoldable pub priority_of : HypothesisKind → ℕ
priority_of HypothesisKind.target_app_probe = 1
priority_of HypothesisKind.secondary_payload = 1
priority_of HypothesisKind.otp_exfil = 2
priority_of HypothesisKind.overlay_attack = 2
priority_of HypothesisKind.accessibility_abuse = 1
priority_of HypothesisKind.c2_beacon = 3

unfoldable pub apis_of : HypothesisKind → List String
apis_of HypothesisKind.target_app_probe = "android.content.pm.PackageManager.getPackageInfo" ∷ []
apis_of HypothesisKind.secondary_payload =
    "dalvik.system.DexClassLoader.$init" ∷ "javax.crypto.Cipher.doFinal" ∷ []
apis_of HypothesisKind.otp_exfil = "android.telephony.SmsMessage.getMessageBody" ∷ []
apis_of HypothesisKind.overlay_attack = "android.view.WindowManager.addView" ∷ []
apis_of HypothesisKind.accessibility_abuse =
    "android.accessibilityservice.AccessibilityService.onAccessibilityEvent" ∷ []
apis_of HypothesisKind.c2_beacon = []

unfoldable pub probe_of : Facts → HypothesisKind → Probe
probe_of f HypothesisKind.target_app_probe = install_packages (candidates f.package_strings)
probe_of f HypothesisKind.secondary_payload = cipher_dump
probe_of f HypothesisKind.c2_beacon = generative_c2
probe_of f _ = no_probe

abbrev pub hypothesis : Facts → HypothesisKind → Hypothesis
hypothesis f k = record {
  kind = k;
  target_apis = apis_of k;
  suggested_probe = probe_of f k;
  priority = priority_of k;
  evidence_refs = f.evidence_refs;
}

-- The kinds in the order of the source's tests.
abbrev pub all_kinds : List HypothesisKind
all_kinds =
    HypothesisKind.target_app_probe ∷ HypothesisKind.secondary_payload ∷ HypothesisKind.otp_exfil
    ∷ HypothesisKind.overlay_attack ∷ HypothesisKind.accessibility_abuse ∷ HypothesisKind.c2_beacon
    ∷ []

unfoldable pub derived : Facts → List HypothesisKind → List Hypothesis
unfolding applies
derived f [] = []
derived f (k ∷ ks) = let rest = derived f ks in if applies f k then hypothesis f k ∷ rest else rest

-- One step of the stable `sorted(output, key=lambda item: item.priority)`.
unfoldable pub insert_by_priority : Hypothesis → List Hypothesis → List Hypothesis
insert_by_priority h [] = h ∷ []
insert_by_priority h (g ∷ gs) =
    let rest = insert_by_priority h gs in if leb h.priority g.priority then h ∷ g ∷ gs else g ∷ rest

unfoldable pub sort_by_priority : List Hypothesis → List Hypothesis
unfolding insert_by_priority
sort_by_priority [] = []
sort_by_priority (h ∷ hs) = insert_by_priority h (sort_by_priority hs)

-- `derive_hypotheses`
unfoldable pub derive_hypotheses : Facts → List Hypothesis
derive_hypotheses f = take 8 (sort_by_priority (derived f all_kinds))
