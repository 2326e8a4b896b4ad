-- ===== src/Normaliser.antt =====
-- drishti/m3_dynamic/normaliser.py: hook events grouped, ordered and capped. The values of an event that
-- the code reads are texts; a text that it cuts is a list of code points. The log is left out.
pub mod Counts
use c_s_cool_stuff.Prelude.{
  ℕ, zero, suc, ◌+◌, ◌-◌, String, Bool, true, false, not, ◌&&◌, ◌||◌, Option, none, some, List, [],
  ◌∷◌, ◌++◌, leb, ltb, ◌==◌, take, length, str_eq, elem, str_leb, Codes, if◌then◌else◌,
}
use c_s_cool_stuff.Score.Inputs.{Floats, Severity}

-- What the code reads of an event.
pub record Event : Type 0 where
  pub technique : Option String
  pub mitre : Option String
  pub source_hook : Option String
  pub hook : Option String
  pub detail : Option Codes

pub record ObservationGroup : Type 0 where
  pub technique : String
  pub mitre : String
  pub hook : String
  pub occurrences : ℕ
  pub first_detail : Codes

abbrev pub max_observation_groups : ℕ
max_observation_groups = 40

-- `TECHNIQUE_SEVERITY`
abbrev pub technique_severity : List (String × Severity)
technique_severity =
    ("T1407", Severity.critical)
    ∷ ("T1417", Severity.critical)
    ∷ ("T1582", Severity.critical)
    ∷ ("T1636", Severity.high)
    ∷ ("T1412", Severity.high)
    ∷ ("T1414", Severity.high)
    ∷ ("T1513", Severity.high)
    ∷ ("T1623", Severity.high)
    ∷ ("T1626", Severity.high)
    ∷ ("T1628", Severity.medium)
    ∷ ("T1521", Severity.medium)
    ∷ ("T1437", Severity.medium)
    ∷ ("T1095", Severity.medium)
    ∷ ("T1426", Severity.medium)
    ∷ ("T1430", Severity.medium)
    ∷ ("T1418", Severity.medium)
    ∷ ("T1406", Severity.medium)
    ∷ ("T1429", Severity.medium)
    ∷ []

unfoldable pub look_up : String → List (String × Severity) → Severity
look_up mitre [] = Severity.low
look_up mitre ((name, s) ∷ rest) = if str_eq name mitre then s else look_up mitre rest

-- `ObservationGroup.severity`
unfoldable pub severity : ObservationGroup → Severity
severity g = look_up g.mitre technique_severity

-- `_SEVERITY_WEIGHT`, in millionths.
abbrev pub severity_weight : Severity → ℕ
severity_weight Severity.critical = 850000
severity_weight Severity.high = 650000
severity_weight Severity.medium = 400000
severity_weight Severity.low = 150000

-- `text or default`
abbrev or_default : Option String → String → String
or_default none default = default
or_default (some s) default = if str_eq s "" then default else s

abbrev or_other : Option String → Option String → Option String
or_other none other = other
or_other (some s) other = if str_eq s "" then other else some s

-- `str(event.get("detail") or "")[:512]`
abbrev cut_detail : Option Codes → Codes
cut_detail none = []
cut_detail (some s) = take 512 s

-- `_key`, as a group seen once.
unfoldable pub group_of : Event → ObservationGroup
group_of e = record {
  technique = or_default e.technique "unknown";
  mitre = or_default e.mitre "";
  hook = or_default (or_other e.source_hook e.hook) "unknown";
  occurrences = 1;
  first_detail = cut_detail e.detail;
}

unfoldable pub same_key : ObservationGroup → ObservationGroup → Bool
same_key g h = str_eq g.technique h.technique && (str_eq g.mitre h.mitre && str_eq g.hook h.hook)

abbrev once_more : ObservationGroup → ObservationGroup
once_more g = record {
  technique = g.technique;
  mitre = g.mitre;
  hook = g.hook;
  occurrences = g.occurrences + 1;
  first_detail = g.first_detail;
}

-- One event counted: its group keeps its place and its first detail.
unfoldable pub count_in : ObservationGroup → List ObservationGroup → List ObservationGroup
count_in g [] = g ∷ []
count_in g (h ∷ hs) =
    let rest = count_in g hs in if same_key h g then once_more h ∷ hs else h ∷ rest

unfoldable pub tally : List ObservationGroup → List Event → List ObservationGroup
unfolding count_in
tally groups [] = groups
tally groups (e ∷ es) = tally (count_in (group_of e) groups) es

-- `(-weight, -occurrences, technique)` of `g` is at most that of `h`.
unfoldable pub comes_before : ObservationGroup → ObservationGroup → Bool
comes_before g h =
    let v = severity_weight (severity g) in
    let w = severity_weight (severity h) in
    if v == w
    then if g.occurrences == h.occurrences
      then str_leb g.technique h.technique
      else ltb h.occurrences g.occurrences
    else ltb w v

-- One step of the stable sort by that key.
unfoldable pub insert_group : ObservationGroup → List ObservationGroup → List ObservationGroup
insert_group g [] = g ∷ []
insert_group g (h ∷ hs) =
    let rest = insert_group g hs in if comes_before g h then g ∷ h ∷ hs else h ∷ rest

unfoldable pub sort_groups : List ObservationGroup → List ObservationGroup
unfolding insert_group
sort_groups [] = []
sort_groups (g ∷ gs) = insert_group g (sort_groups gs)

-- The groups of all events, in their order.
abbrev pub all_groups : List Event → List ObservationGroup
all_groups events = sort_groups (tally [] events)

module _ (m : Floats) where
  open m use {Float, micro, sub, mul, round_6}

  pub record NormalisedTrace : Type 0 where
    pub groups : List ObservationGroup
    pub total_events : ℕ
    pub dropped_groups : ℕ
    pub b_dynamic : Float

  -- The product over the techniques, each once. `{g.mitre: ...}` keeps a name's first place, and the
  -- severity is a function of the name.
  unfoldable pub complement : Float → List String → List ObservationGroup → Float
  complement c seen [] = c
  complement c seen (g ∷ gs) =
      if str_eq g.mitre "" || elem g.mitre seen
      then complement c seen gs
      else complement (mul c (sub (micro 1000000) (micro (severity_weight (severity g)))))
          (g.mitre ∷ seen) gs

  abbrev pub has_technique : List ObservationGroup → Bool
  has_technique [] = false
  has_technique (g ∷ gs) = not (str_eq g.mitre "") || has_technique gs

  -- `behavioural_signal`
  unfoldable pub behavioural_signal : List ObservationGroup → Float
  unfolding complement
  behavioural_signal groups =
      if has_technique groups
      then round_6 (sub (micro 1000000) (complement (micro 1000000) [] groups))
      else micro 0

  -- `aggregate`
  unfoldable pub aggregate : List Event → NormalisedTrace
  aggregate [] = record { groups = []; total_events = 0; dropped_groups = 0; b_dynamic = micro 0 }
  aggregate (e ∷ es) =
      let groups = all_groups (e ∷ es) in
      let kept = take max_observation_groups groups in
      record {
        groups = kept;
        total_events = length (e ∷ es);
        dropped_groups = length groups - max_observation_groups;
        b_dynamic = behavioural_signal kept;
      }
