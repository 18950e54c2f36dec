-- ===== src/GameKernel/Census.antt =====
-- No tick makes items out of nothing (examples/cf-game-audit/game/kernel.ts).
use converge_audit.Prelude.{
  ℕ, suc, ◌+◌, ◌%◌, ◌≤◌, ◌≡◌, refl, sym, ap, ◌∙◌, Bool, true, false, not, Option, none, some, List,
  [], ◌∷◌, length, length-append, map, filter, mem-filter, filter-mem, Memᴰ, arith, Bool-cases, inl,
  inr, ◌==◌, if◌then◌else◌, ok,
}
use converge_audit.Prelude.Int.{pos, ltb_ℤ}
use converge_audit.Prelude.Text.{text_eq, text_eq_refl}
use converge_audit.GameItems.State.{PlayerState, EnemyState, GroundDrop, GameState}
use converge_audit.GameKernel.Moves.{InputFrame, move_player, move_toward, auto_attack_interval}
use converge_audit.GameKernel.Step.{
  StepEffect, LocaleCompare, damaged, nearest, before_or_same, in_range, strike, strike_any,
  attack_nearest, within_pickup, item_of, has_id, advance_game,
}
use converge_audit.GameKernel.Advanced.{
  advance-Advanced, attack_of, player_of, all_drops, picked_up,
}

module _ {A : Type 0} where
  pub length-map : {B : Type 0} (f : A → B) (xs : List A) → length (map f xs) ≡ length xs
  length-map f [] = refl
  length-map f (x ∷ xs) = ap suc (length-map f xs)

  pub length-filter :
      (p : A → Bool) (xs : List A)
      → length (filter p xs) + length (filter (λ x. not (p x)) xs) ≡ length xs
  length-filter p [] = refl
  length-filter p (x ∷ xs) = ground (arith, length-filter p xs)

  -- A test that fails wherever another holds keeps no more than those that fail the other.
  pub filter-le :
      (p q : A → Bool) (xs : List A)
      → ((x : A) → Memᴰ x xs → p x ≡ true → q x ≡ false)
      → length (filter q xs) ≤ length (filter (λ x. not (p x)) xs)
  filter-le p q [] h = omega arith
  filter-le p q (x ∷ xs) h =
      let rest = filter-le p q xs (λ y m. h y (Memᴰ.tail m)) in
      let here = h x (Memᴰ.head refl) in ground (arith, rest, here)

  -- An element that fails a test shortens the filtered list.
  pub filter-lt :
      (p : A → Bool) (xs : List A) {a : A}
      → Memᴰ a xs
      → p a ≡ false
      → length (filter p xs) + 1 ≤ length xs
  filter-lt p [] m h = elim m [ ]
  filter-lt p (x ∷ xs) (Memᴰ.head e) h =
      let gone : p x ≡ false = ap p (sym e) ∙ h in ground (arith, gone, length-filter p xs)
  filter-lt p (x ∷ xs) (Memᴰ.tail m) h = ground (arith, filter-lt p xs m h)

module _ (locale_compare : LocaleCompare) where
  nearest-mem :
      (player : PlayerState) (es : List EnemyState) (e : EnemyState)
      → nearest locale_compare player es ≡ some e
      → Memᴰ e es
  nearest-mem player [] e h = absurd (cc)
  nearest-mem player (x ∷ xs) e h =
      first (nearest locale_compare player xs) refl h (nearest-mem player xs e)
    where
      first :
          (o : Option EnemyState)
          → nearest locale_compare player xs ≡ o
          → (elim o [
            | none ↦ some x
            | some f ↦ if before_or_same locale_compare player x f then some x else some f
          ])
            ≡ some e
          → (nearest locale_compare player xs ≡ some e → Memᴰ e xs)
          → Memᴰ e (x ∷ xs)
      first none q k later = Memᴰ.head (cc)
      first (some f) q k later = elim (Bool-cases (before_or_same locale_compare player x f)) [
        | inl y ↦
            let same : ◌≡◌ {A = Option EnemyState} (some x) (some e) = rw y at k in Memᴰ.head (cc)
        | inr y ↦
            let same : ◌≡◌ {A = Option EnemyState} (some f) (some e) = rw y at k in
            Memᴰ.tail (later (q ∙ same))
      ]

  strike_census :
      (es : List EnemyState) (player : PlayerState) (tick seed : ℕ) (target : EnemyState)
      → Memᴰ target es
      → let a = strike es player tick seed target in length a.enemies + length a.drops ≤ length es
  unfolding strike
  strike_census es player tick seed target m =
      elim (Bool-cases (ltb_ℤ (pos 0) (damaged target).hp)) [
        | inl y ↦ rw y (
            omega (
              arith,
              length-map (λ (e : EnemyState). if text_eq e.id target.id then damaged target else e)
                  es,
            ))
        | inr y ↦ rw y (
            filter-lt (λ (e : EnemyState). not (text_eq e.id target.id)) es m
              (rw (text_eq_refl target.id) refl))
      ]

  attack_census :
      (es : List EnemyState) (player : PlayerState) (tick seed : ℕ)
      → let a = attack_nearest locale_compare es player tick seed in
        length a.enemies + length a.drops ≤ length es
  unfolding attack_nearest
  attack_census es player tick seed = elim (Bool-cases (tick % auto_attack_interval == 0)) [
    | inl y ↦ rw y (on (nearest locale_compare player (filter (in_range player) es)) refl)
    | inr y ↦ rw y (omega arith)
  ]
    where
      on :
          (o : Option EnemyState)
          → nearest locale_compare player (filter (in_range player) es) ≡ o
          → let a = strike_any es player tick seed o in
            length a.enemies + length a.drops ≤ length es
      on none q = omega arith
      on (some target) q =
          strike_census es player tick seed target
            (filter-mem (in_range player) es
              (nearest-mem player (filter (in_range player) es) target q)).0

-- The enemies, the drops and the items of a state together.
abbrev pub census : GameState → ℕ
census s = length s.enemies + length s.drops + length s.inventory

-- A drop that is picked up is not left.
left_by :
    (picked all : List GroundDrop) (p : GroundDrop → Bool)
    → ((d : GroundDrop) → Memᴰ d all → p d ≡ true → Memᴰ d picked)
    → length (filter (λ (d : GroundDrop). not (has_id picked d.id)) all)
      ≤ length (filter (λ d. not (p d)) all)
left_by picked all p h = filter-le p (λ (d : GroundDrop). not (has_id picked d.id)) all gone
  where
    has : (ds : List GroundDrop) (d : GroundDrop) → Memᴰ d ds → has_id ds d.id ≡ true
    has [] d m = elim m [ ]
    has (x ∷ xs) d (Memᴰ.head e) = rw e (rw (text_eq_refl x.id) refl)
    has (x ∷ xs) d (Memᴰ.tail m) = ground (arith, has xs d m)

    gone : (d : GroundDrop) → Memᴰ d all → p d ≡ true → not (has_id picked d.id) ≡ false
    gone d m e = rw (has picked d (h d m e)) refl

-- The enemies, the drops and the items of the inventory after a tick are together no more than
-- before.
pub advance_census :
    (locale_compare : LocaleCompare) (s t : GameState) (input : InputFrame)
    (effects : List StepEffect)
    → advance_game locale_compare s input ≡ ok (t, effects)
    → census t ≤ census s
advance_census locale_compare s t input effects e =
    let a = advance-Advanced locale_compare s input t effects e in
    let all = all_drops locale_compare s input in
    let taken = picked_up locale_compare s input in
    let near = within_pickup (player_of locale_compare s input) in
    let moved = map (move_toward (move_player s input)) s.enemies in
    let fought = attack_census locale_compare moved (move_player s input) input.tick s.seed in
    let rest = left_by taken all near (λ d m y. mem-filter near all y m) in
    let split = length-filter near all in
    let sums = length-append s.drops (attack_of locale_compare s input).drops in
    let items = length-append s.inventory (map item_of taken) in
    rw a.result (
      omega (
        arith,
        fought,
        rest,
        split,
        sums,
        items,
        length-map item_of taken,
        length-map (move_toward (move_player s input)) s.enemies,
      ))
