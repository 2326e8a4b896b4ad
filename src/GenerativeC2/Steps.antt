-- ===== src/GenerativeC2/Steps.antt =====
-- What it takes for a step of the gate of drishti/m3_dynamic/generative_c2.py to pass.
use c_s_cool_stuff.Prelude.{
  Bool, true, false, Option, none, some, List, if◌then◌else◌, ◌≡◌, refl, arith, ◌≢◌,
}
use c_s_cool_stuff.GenerativeC2.{Neutralisation, Refusal, Gated, refused, passed}
use c_s_cool_stuff.GenerativeC2.Gate.{and_then, noting, unless_refused}

pub and_then-passed :
    {A B : Type 0} (g : Gated A) (f : A → Gated B) (b : B) (ns : List Neutralisation)
    → and_then g f ≡ passed b ns
    → (a : A) × (ms : List Neutralisation) × (ks : List Neutralisation) × (g ≡ passed a ms)
      × (f a ≡ passed b ks)
and_then-passed (refused r) f b ns h = cc
and_then-passed {A} {B} (passed a ms) f b ns h = go (f a) refl h
  where
    go :
        (r : Gated B)
        → f a ≡ r
        → noting ms r ≡ passed b ns
        → (c : A) × (ls : List Neutralisation) × (ks : List Neutralisation) × (passed a ms
            ≡ passed c ls)
          × (f c ≡ passed b ks)
    go (refused r) e q = cc
    go (passed d ks) e q = (a, ms, ks, refl, grind arith)

pub unless_refused-passed :
    {A : Type 0} (o : Option Refusal) (g : Gated A) (b : A) (ns : List Neutralisation)
    → unless_refused o g ≡ passed b ns
    → g ≡ passed b ns
unless_refused-passed none g b ns h = h
unless_refused-passed (some r) g b ns h = cc

pub guard-passed :
    {A : Type 0} (test : Bool) (r : Refusal) (g : Gated A) (b : A) (ns : List Neutralisation)
    → (if test then refused r else g) ≡ passed b ns
    → (test ≡ false) × (g ≡ passed b ns)
guard-passed false r g b ns h = (refl, h)
guard-passed true r g b ns h = cc

pub refused-passed :
    {A : Type 0} (r : Refusal) (b : A) (ns : List Neutralisation) → refused r ≢ passed b ns
refused-passed r b ns h = cc

pub passed-value :
    {A : Type 0} (a b : A) (ms ns : List Neutralisation) → passed a ms ≡ passed b ns → a ≡ b
passed-value a b ms ns h = cc
