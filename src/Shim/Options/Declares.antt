-- ===== src/Shim/Options/Declares.antt =====
-- cores/libretro_shim/LibretroShim.cpp: what is declared stands in the table of values.
use retro_park.Base.{
  ℕ, true, false, ◌≡◌, sym, ap, ◌∙◌, arith, some, List, [], ◌∷◌, length, get_elem?-append,
  get_elem?-last, Bool-cases, Option-cases, inl, inr, if◌then◌else◌,
}
use retro_park.Base.Bytes.{bytes_eq, bytes_eq_iff}
use retro_park.Base.Dict.{lookup, lookup-insert}
use retro_park.Shim.Options.{
  ShimOption, Options, Variable, Definition, is_some, shim_add_option, parse_variable,
  read_definition, set_variables, set_core_options,
}
use retro_park.Shim.Options.Indexed.{
  IsSound, is_new, shim_add_option-new, shim_add_option-old, shim_add_option-IsSound, effective,
}
use retro_park.Shim.Options.Table.{Table, declare, declare_variables, declare_definitions, Holds}

pub effective-declared :
    (k : List ℕ) (o : Options)
    → IsSound o
    → is_some (effective k o) ≡ is_some (lookup k o.option_index)
unfolding effective
effective-declared k o s = elim (Option-cases (lookup k o.option_index)) [
  | inl e ↦ ground arith
  | inr (i, e) ↦ let (d, e', k') = s.indexed k i e in ground arith
]

-- What a key stands for after the options have changed only in what is appended to the definitions,
-- and elsewhere in the index
effective-append :
    (j : List ℕ) (d : ShimOption) (o : Options)
    → IsSound o
    → is_new d o ≡ true
    → effective j (shim_add_option d o) ≡ (if bytes_eq d.key j then some d.def else effective j o)
unfolding effective
effective-append j d o s new = rw (shim_add_option-new d o new) (
    let law = lookup-insert d.key j (length o.option_defs) o.option_index in
    elim (Bool-cases (bytes_eq d.key j)) [
      | inl same ↦
          let e : d.key ≡ j = (bytes_eq_iff d.key j).0 same in
          let fresh : is_some (lookup j o.option_index) ≡ false = rw (← e) (ground arith) in
          ground (arith, law, get_elem?-last o.option_defs d, s.known j fresh)
      | inr other ↦ elim (Option-cases (lookup j o.option_index)) [
        | inl e ↦ ground (arith, law)
        | inr (i, e) ↦
            let (d', e', k') = s.indexed j i e in
            ground (arith, law, get_elem?-append o.option_defs (d ∷ []) i d' e')
      ]
    ])

pub declare-Holds :
    (d : ShimOption) (o : Options) (t : Table)
    → Holds o t
    → Holds (shim_add_option d o) (declare d t)
declare-Holds d o t h =
    let same : is_some (t.setting d.key) ≡ is_some (lookup d.key o.option_index) =
      ap is_some (sym (h.holds d.key)) ∙ effective-declared d.key o h.sound in
    elim (Bool-cases (is_new d o)) [
      | inl new ↦ record {
        sound = shim_add_option-IsSound d o h.sound;
        holds = λ j. ground (arith, effective-append j d o h.sound new, h.holds j);
        latch = rw (shim_add_option-new d o new) h.latch;
      }
      | inr old ↦ record {
        sound = shim_add_option-IsSound d o h.sound;
        holds = λ j. rw (shim_add_option-old d o old) (ground (arith, h.holds j));
        latch = rw (shim_add_option-old d o old) h.latch;
      }
    ]

pub variables-Holds :
    (vs : List Variable) (o : Options) (t : Table)
    → Holds o t
    → Holds (set_variables vs o) (declare_variables vs t)
unfolding set_variables declare_variables
variables-Holds [] o t h = h
variables-Holds (v ∷ vs) o t h =
    let d = parse_variable v in
    variables-Holds vs (shim_add_option d o) (declare d t) (declare-Holds d o t h)

pub definitions-Holds :
    (ds : List Definition) (o : Options) (t : Table)
    → Holds o t
    → Holds (set_core_options ds o) (declare_definitions ds t)
unfolding set_core_options declare_definitions
definitions-Holds [] o t h = h
definitions-Holds (d ∷ ds) o t h =
    let d' = read_definition d in
    definitions-Holds ds (shim_add_option d' o) (declare d' t) (declare-Holds d' o t h)
