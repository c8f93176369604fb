-- ===== src/Settings/Defaults/Stage.antt =====
-- Functions on the configuration that look at one section and write one section, in a row.
use trailarr.Prelude.{
  ◌≡◌, refl, ap, ◌∙◌, Bool, false, ◌||◌, List, [], ◌∷◌, Bytes, ◌==◌, ==_refl, if◌then◌else◌,
}
use trailarr.Values.{Value, Fields, at}

-- The section `name` becomes `value` of what it was; whether that is a change is told by `changed`.
pub record Stage : Type 0 where
  pub name : Bytes
  pub run : Fields → Bool × Fields
  pub value : Value → Value
  pub changed : Value → Bool
  pub reports : (c : Fields) → (run c).0 ≡ changed (at name c)
  pub writes :
      (c : Fields) (j : Bytes) → at j (run c).1 ≡ (if name == j then value (at name c) else at j c)

abbrev pub run_stages : List Stage → Bool × Fields → Bool × Fields
run_stages [] c = c
run_stages (s ∷ ss) c = run_stages ss ((s.run c.1).0 || c.0, (s.run c.1).1)

-- No stage has this name.
abbrev pub Avoids : Bytes → List Stage → Type 0
Avoids j [] = Unit
Avoids j (s ∷ ss) = ((s.name == j) ≡ false) × Avoids j ss

pub at-run_stages :
    (ss : List Stage) (j : Bytes) (c : Bool × Fields)
    → Avoids j ss
    → at j (run_stages ss c).1 ≡ at j c.1
at-run_stages [] j c h = refl
at-run_stages (s ∷ ss) j c h =
    at-run_stages ss j ((s.run c.1).0 || c.0, (s.run c.1).1) h.1 ∙ s.writes c.1 j ∙ rw h.0 refl

-- A section is written by its own stage only.
pub at-run_stages-one :
    (before after : List Stage) (s : Stage) (c : Bool × Fields)
    → Avoids s.name before
    → Avoids s.name after
    → at s.name (run_stages (s ∷ after) (run_stages before c)).1 ≡ s.value (at s.name c.1)
at-run_stages-one before after s c h k =
    let d = run_stages before c in
    at-run_stages after s.name ((s.run d.1).0 || d.0, (s.run d.1).1) k
    ∙ s.writes d.1 s.name
    ∙ rw (==_refl s.name) (ap s.value (at-run_stages before s.name c h))

-- No stage of the list has the name `n`.
abbrev pub NotNamed : Bytes → List Stage → Type 0
NotNamed n [] = Unit
NotNamed n (s ∷ ss) = ((n == s.name) ≡ false) × NotNamed n ss

abbrev pub Distinct : List Stage → Type 0
Distinct [] = Unit
Distinct (s ∷ ss) = NotNamed s.name ss × Distinct ss

-- Each stage finds its section in a state for which it reports no change.
abbrev pub AllQuiet : Fields → List Stage → Type 0
AllQuiet c [] = Unit
AllQuiet c (s ∷ ss) = (s.changed (at s.name c) ≡ false) × AllQuiet c ss

AllQuiet-run :
    (s : Stage) (ss : List Stage) (c : Fields)
    → NotNamed s.name ss
    → AllQuiet c ss
    → AllQuiet (s.run c).1 ss
AllQuiet-run s [] c n q = tt
AllQuiet-run s (t ∷ ss) c n q =
    (ap t.changed (s.writes c t.name ∙ (rw n.0 refl)) ∙ q.0, AllQuiet-run s ss c n.1 q.1)

pub run_stages-quiet :
    (ss : List Stage) (c : Fields)
    → Distinct ss
    → AllQuiet c ss
    → (run_stages ss (false, c)).0 ≡ false
run_stages-quiet [] c d q = refl
run_stages-quiet (s ∷ ss) c d q =
    ap (λ b. (run_stages ss (b || false, (s.run c).1)).0) (s.reports c ∙ q.0)
    ∙ run_stages-quiet ss (s.run c).1 d.1 (AllQuiet-run s ss c d.0 q.1)
