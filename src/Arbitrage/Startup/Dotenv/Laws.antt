-- ===== src/Arbitrage/Startup/Dotenv/Laws.antt =====
-- examples/toy-arbitrage/src/main.rs: the variables after `load_dotenv`.
use driftbrake.Base.{
  ℕ, ◌≡◌, refl, sym, ap, subst, ◌∙◌, inl, inr, List, [], ◌∷◌, Option, none, some, value, panic,
  >>=-eq-value, if◌then◌else◌, Bool-cases,
}
use driftbrake.Base.Text.{same_text, same_text-eq}
use driftbrake.Arbitrage.Startup.Dotenv.{
  Env, trim, lines, split_once, is_settable, set_var, set_if_unset, load_pair, is_skipped,
  load_line, load_lines, load_dotenv,
}

-- The first value, or else the second.
abbrev pub or_value : Option (List ℕ) → Option (List ℕ) → Option (List ℕ)
or_value none v = v
or_value (some u) v = some u

-- What a line says of a variable.
abbrev pub pair_value : List ℕ → Option (List ℕ × List ℕ) → Option (List ℕ)
pair_value name none = none
pair_value name (some (key, val)) = if same_text name (trim key) then some (trim val) else none

abbrev pub line_value : List ℕ → List ℕ → Option (List ℕ)
line_value name line = if is_skipped line then none else pair_value name (split_once line)

-- The first line that assigns the variable.
abbrev pub first_value : List ℕ → List (List ℕ) → Option (List ℕ)
first_value name [] = none
first_value name (line ∷ rest) = or_value (line_value name (trim line)) (first_value name rest)

or_value-none : (v : Option (List ℕ)) → or_value v none ≡ v
or_value-none none = refl
or_value-none (some u) = refl

or_value_assoc : (u v w : Option (List ℕ)) → or_value (or_value u v) w ≡ or_value u (or_value v w)
or_value_assoc none v w = refl
or_value_assoc (some x) v w = refl

env_inj : {a b : Env} → value a ≡ value b → a ≡ b
env_inj h = cc

set_var_lem :
    (env after : Env) (key val name : List ℕ)
    → env key ≡ none
    → set_var env key val ≡ value after
    → after name ≡ or_value (env name) (if same_text name key then some val else none)
set_var_lem env after key val name unset h = elim (Bool-cases (is_settable key val)) [
  | inl settable ↦
      let made = env_inj (rw settable at h) in
      subst
        (λ (e : Env). e name ≡ or_value (env name) (if same_text name key then some val else none))
        made
        (elim (Bool-cases (same_text name key)) [
          | inl same ↦ rw (same, ap env (same_text-eq name key same), unset) refl
          | inr differ ↦ rw differ (sym (or_value-none (env name)))
        ])
  | inr bad ↦ let clash : panic ≡ value after = rw bad at h in cc
]

set_if_unset_lem :
    (env after : Env) (known : Option (List ℕ)) (key val name : List ℕ)
    → env key ≡ known
    → set_if_unset env known key val ≡ value after
    → after name ≡ or_value (env name) (if same_text name key then some val else none)
set_if_unset_lem env after none key val name e h = set_var_lem env after key val name e h
set_if_unset_lem env after (some present) key val name e h =
    subst
      (λ (v : Env). v name ≡ or_value (env name) (if same_text name key then some val else none))
      (env_inj h)
      (elim (Bool-cases (same_text name key)) [
        | inl same ↦ rw (same, ap env (same_text-eq name key same), e) refl
        | inr differ ↦ rw differ (sym (or_value-none (env name)))
      ])

load_pair_lem :
    (env after : Env) (name : List ℕ) (pair : Option (List ℕ × List ℕ))
    → load_pair env pair ≡ value after
    → after name ≡ or_value (env name) (pair_value name pair)
load_pair_lem env after name none h =
    subst (λ (v : Env). v name ≡ or_value (env name) none) (env_inj h)
      (sym (or_value-none (env name)))
load_pair_lem env after name (some (key, val)) h =
    set_if_unset_lem env after (env (trim key)) (trim key) (trim val) name refl h

load_line_lem :
    (env after : Env) (name line : List ℕ)
    → load_line env line ≡ value after
    → after name ≡ or_value (env name) (line_value name line)
load_line_lem env after name line h = elim (Bool-cases (is_skipped line)) [
  | inl skipped ↦ rw skipped (load_pair_lem env after name none (rw skipped at h))
  | inr kept ↦ rw kept (load_pair_lem env after name (split_once line) (rw kept at h))
]

load_lines_lem :
    (env after : Env) (name : List ℕ) (ls : List (List ℕ))
    → load_lines env ls ≡ value after
    → after name ≡ or_value (env name) (first_value name ls)
unfolding load_lines
load_lines_lem env after name [] h =
    subst (λ (v : Env). v name ≡ or_value (env name) none) (env_inj h)
      (sym (or_value-none (env name)))
load_lines_lem env after name (line ∷ ls) h =
    let (mid, e, rest) = >>=-eq-value (load_line env (trim line)) (λ m. load_lines m ls) h in
    load_lines_lem mid after name ls rest
    ∙ ap (λ (v : Option (List ℕ)). or_value v (first_value name ls))
        (load_line_lem env mid name (trim line) e)
    ∙ or_value_assoc (env name) (line_value name (trim line)) (first_value name ls)

-- Where `load_dotenv` returns, a variable that was set keeps its value, and another has the value of the
-- first line of the file that assigns it, if there is one: comments, empty lines and lines without `=`
-- change nothing.
pub load_dotenv_lem :
    (env after : Env) (contents name : List ℕ)
    → load_dotenv env (some contents) ≡ value after
    → after name ≡ or_value (env name) (first_value name (lines contents))
unfolding load_dotenv
load_dotenv_lem env after contents name h = load_lines_lem env after name (lines contents) h
