-- ===== src/Shim/Options/Values.antt =====
-- cores/libretro_shim/LibretroShim.cpp: the options answer as the table of values does.
use retro_park.Base.{
  ℕ, true, false, ◌≡◌, ◌⊎◌, refl, sym, ap, ◌∙◌, arith, none, some, List, [], ◌∷◌, Bool-cases,
  Option-cases, inl, inr, if◌then◌else◌,
}
use retro_park.Base.Bytes.{bytes_eq, bytes_eq_iff}
use retro_park.Base.Dict.{lookup, insert, lookup-insert}
use retro_park.Loader.CoreLoader.{value}
use retro_park.Shim.Options.{
  Options, new_options, is_some, set_variables, set_core_options, serve, get_variable,
  get_variable_update, sh_core_option_get, sh_core_option_set,
}
use retro_park.Shim.Options.Indexed.{
  IsSound, effective, serve-effective, served, served-effective, served-IsSound,
}
use retro_park.Shim.Options.Table.{
  OptionCall, variables, definitions, ask, poll, option_get, option_set, perform, performs, Table,
  empty_table, answer, answers, Holds,
}
use retro_park.Shim.Options.Declares.{effective-declared, variables-Holds, definitions-Holds}

served-Holds : (k v : List ℕ) (o : Options) (t : Table) → Holds o t → Holds (served k v o) t
unfolding served
served-Holds k v o t h = record {
  sound = served-IsSound k v o h.sound;
  holds = λ j. served-effective k v j o ∙ h.holds j;
  latch = h.latch;
}

-- An overriding value, written into the table of a key that is declared
set-effective :
    (k v j : List ℕ) (o : Options)
    → IsSound o
    → is_some (lookup k o.option_index) ≡ true
    → effective j
        (record o { option_overrides = insert k v o.option_overrides; options_dirty = true })
      ≡ (if bytes_eq k j then some v else effective j o)
unfolding effective
set-effective k v j o s h =
    let law = lookup-insert k j v o.option_overrides in
    elim (Bool-cases (bytes_eq k j)) [
      | inl same ↦
          let e : k ≡ j = (bytes_eq_iff k j).0 same in
          let there : is_some (lookup j o.option_index) ≡ true = rw (← e) h in ground (arith, law)
      | inr other ↦ ground (arith, law)
    ]

pub set-IsSound :
    (k v : List ℕ) (o : Options)
    → IsSound o
    → is_some (lookup k o.option_index) ≡ true
    → IsSound (record o { option_overrides = insert k v o.option_overrides; options_dirty = true })
set-IsSound k v o s h = record {
  indexed = s.indexed;
  known = λ j absent.
      let law = lookup-insert k j v o.option_overrides in
      elim (Bool-cases (bytes_eq k j)) [
        | inl same ↦
            let e : k ≡ j = (bytes_eq_iff k j).0 same in
            let there : is_some (lookup j o.option_index) ≡ true = rw (← e) h in cc
        | inr other ↦ ground (arith, law, s.known j absent)
      ];
}

-- A call answers as the table does, and leaves it held.
abbrev Answers : OptionCall → Options → Table → Type 0
Answers c o t =
    (o' : Options) × (perform c o ≡ value ((answer c t).0, o')) × Holds o' (answer c t).1

lookup-Holds :
    (k : List ℕ) (o : Options) (t : Table)
    → Holds o t
    → ((lookup k o.option_index ≡ none) × (t.setting k ≡ none))
      ⊎ ((i : ℕ) × (v : List ℕ) × (lookup k o.option_index ≡ some i)
          × (serve k i o ≡ value (v, served k v o))
          × (t.setting k ≡ some v))
unfolding effective
lookup-Holds k o t h = elim (Option-cases (lookup k o.option_index)) [
  | inl e ↦ inl (e, sym (h.holds k) ∙ rw (e, effective))
  | inr (i, e) ↦
      let (v, s, f) = serve-effective k i o h.sound e in inr (i, v, e, s, sym (h.holds k) ∙ f)
]

ask-Answers : (k : List ℕ) (o : Options) (t : Table) → Holds o t → Answers (ask (some k)) o t
unfolding perform answer get_variable
ask-Answers k o t h = elim (lookup-Holds k o t h) [
  | inl (e, f) ↦ (o, ground arith, h)
  | inr (i, v, e, s, f) ↦ (served k v o, ground arith, served-Holds k v o t h)
]

option_get-Answers : (k : List ℕ) (o : Options) (t : Table) → Holds o t → Answers (option_get k) o t
unfolding perform answer sh_core_option_get
option_get-Answers k o t h = elim (lookup-Holds k o t h) [
  | inl (e, f) ↦ (o, ground arith, h)
  | inr (i, v, e, s, f) ↦ (served k v o, ground arith, served-Holds k v o t h)
]

option_set-Answers :
    (k v : List ℕ) (o : Options) (t : Table)
    → Holds o t
    → Answers (option_set (some k) (some v)) o t
unfolding perform answer sh_core_option_set
option_set-Answers k v o t h =
    let same : is_some (t.setting k) ≡ is_some (lookup k o.option_index) =
      ap is_some (sym (h.holds k)) ∙ effective-declared k o h.sound in
    elim (Bool-cases (is_some (lookup k o.option_index))) [
      | inl known ↦ (
        record o { option_overrides = insert k v o.option_overrides; options_dirty = true },
        rw (known, same ∙ known) refl,
        rw (same ∙ known) (record {
          sound = set-IsSound k v o h.sound known;
          holds = λ j. ground (arith, set-effective k v j o h.sound known, h.holds j);
          latch = refl;
        }),
      )
      | inr unknown ↦ (o, rw (unknown, same ∙ unknown) refl, rw (same ∙ unknown) h)
    ]

perform-Answers : (c : OptionCall) (o : Options) (t : Table) → Holds o t → Answers c o t
unfolding perform answer effective
perform-Answers (variables vs) o t h = (set_variables vs o, refl, variables-Holds vs o t h)
perform-Answers (definitions ds) o t h = (set_core_options ds o, refl, definitions-Holds ds o t h)
perform-Answers (ask none) o t h = (o, unfold get_variable in refl, h)
perform-Answers (ask (some k)) o t h = ask-Answers k o t h
perform-Answers poll o t h =
    unfold get_variable_update in
    (
      record o { options_dirty = false },
      ground (arith, h.latch),
      record {
        sound = record { indexed = h.sound.indexed; known = h.sound.known };
        holds = h.holds;
        latch = refl;
      },
    )
perform-Answers (option_get k) o t h = option_get-Answers k o t h
perform-Answers (option_set none v) o t h = (o, unfold sh_core_option_set in refl, h)
perform-Answers (option_set (some k) none) o t h = (o, unfold sh_core_option_set in refl, h)
perform-Answers (option_set (some k) (some v)) o t h = option_set-Answers k v o t h

performs-Holds :
    (cs : List OptionCall) (o : Options) (t : Table)
    → Holds o t
    → (o' : Options) × (performs cs o ≡ value (answers cs t, o'))
unfolding performs answers
performs-Holds [] o t h = (o, refl)
performs-Holds (c ∷ cs) o t h =
    let (o', e, h') = perform-Answers c o t h in
    let (o'', e') = performs-Holds cs o' (answer c t).1 h' in (o'', rw (e, e') refl)

new-Holds : Holds new_options empty_table
unfolding effective lookup
new-Holds = record {
  sound = record { indexed = λ k i h. cc; known = λ k h. refl };
  holds = λ j. refl;
  latch = refl;
}

-- Any calls about options, from the core and from the frontend in any order, on a new instance of the
-- shim are answered without a fault, and as a table of values with a flag answers them.
pub performs-answers :
    (cs : List OptionCall)
    → (o : Options) × (performs cs new_options ≡ value (answers cs empty_table, o))
performs-answers cs = performs-Holds cs new_options empty_table new-Holds
