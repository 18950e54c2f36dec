-- ===== src/KeyLifecycle/History/Lookup.antt =====
-- The compiled index finds exactly the records of the history
-- (examples/player-local-runtime/key-lifecycle.ts).
use converge_audit.Prelude.{
  ℕ, ◌≡◌, refl, sym, ap, ◌∙◌, ◌⊎◌, inl, inr, ◌↔◌, true, false, some, List, [], ◌∷◌, ◌++◌, Memᴰ,
  arith, all, Bool-cases, ok, ◌≢◌, if◌then◌else◌,
}
use converge_audit.Prelude.Text.{Text, text_eq, text_eq_iff, matches_identifier, is_identifier_unit}
use converge_audit.Prelude.Decimal.{decimal, decimal_injective}
use converge_audit.Prelude.Dict.{Dict, lookup, insert, lookup-insert}
use converge_audit.KeyLifecycle.Records.{
  VerificationKeyRecord, valid_key_record, valid_key_record_window, texts_valid, key_version_index,
}
use converge_audit.KeyLifecycle.History.{
  CompiledHistory, index_from, compile_verification_key_history, lookup_key,
  validate_verification_key_history,
}
use converge_audit.KeyLifecycle.History.Slots.{records_valid}
use converge_audit.KeyLifecycle.History.Windows.{version_unique}

-- No code unit of a text is NUL.
abbrev NoNul : Text → Type 0
NoNul [] = Unit
NoNul (c ∷ cs) = (c ≢ 0) × NoNul cs

all_identifier-NoNul : (cs : Text) → all is_identifier_unit cs ≡ true → NoNul cs
all_identifier-NoNul [] h = tt
all_identifier-NoNul (c ∷ cs) h = (ground arith, all_identifier-NoNul cs (ground arith))

matches_identifier-NoNul : (cs : Text) → matches_identifier cs ≡ true → NoNul cs
unfolding matches_identifier
matches_identifier-NoNul [] h = tt
matches_identifier-NoNul (c ∷ cs) h = (ground arith, all_identifier-NoNul cs (ground arith))

pub key_id-NoNul : (r : VerificationKeyRecord) → valid_key_record r ≡ true → NoNul r.key_id
key_id-NoNul r h = matches_identifier-NoNul r.key_id (pick (valid_key_record_window r h).3)
  where
    pick : texts_valid r ≡ true → matches_identifier r.key_id ≡ true
    pick t = unfold texts_valid in ground arith

index_split :
    (a b : Text) (x y : Text) → NoNul a → NoNul b → a ++ 0 ∷ x ≡ b ++ 0 ∷ y → (a ≡ b) × (x ≡ y)
index_split [] [] x y ha hb e = (refl, cc)
index_split [] (d ∷ b) x y ha hb e = absurd (hb.0 (cc))
index_split (c ∷ a) [] x y ha hb e = absurd (ha.0 (cc))
index_split (c ∷ a) (d ∷ b) x y ha hb e =
    let tails : a ++ 0 ∷ x ≡ b ++ 0 ∷ y = cc in
    let rest = index_split a b x y ha.1 hb.1 tails in (cc (rest.0), rest.1)

-- The composed index of a key without NUL determines the key and its version.
pub key_version_index_injective :
    (a b : Text) (m n : ℕ)
    → NoNul a
    → NoNul b
    → key_version_index a m ≡ key_version_index b n
    → (a ≡ b) × (m ≡ n)
unfolding key_version_index
key_version_index_injective a b m n ha hb e =
    let parts = index_split a b (decimal m) (decimal n) ha hb e in
    (parts.0, decimal_injective m n parts.1)

abbrev pub index_of : VerificationKeyRecord → Text
index_of r = key_version_index r.key_id r.key_version

abbrev Only : List VerificationKeyRecord → Text → VerificationKeyRecord → Type 0
Only keys j x = (r : VerificationKeyRecord) → Memᴰ r keys → index_of r ≡ j → r ≡ x

abbrev Stored :
    List VerificationKeyRecord → Dict VerificationKeyRecord → Text → VerificationKeyRecord → Type 0
Stored keys d j x = (lookup j d ≡ some x) ⊎ (Memᴰ x keys × (index_of x ≡ j))

-- One step of the loop keeps a record where it can be found.
Stored-step :
    (k : VerificationKeyRecord) (keys : List VerificationKeyRecord) (d : Dict VerificationKeyRecord)
    (j : Text) (x : VerificationKeyRecord)
    → Only (k ∷ keys) j x
    → Stored (k ∷ keys) d j x
    → Stored keys (insert (index_of k) k d) j x
Stored-step k keys d j x only st = elim (Bool-cases (text_eq (index_of k) j)) [
  | inl e ↦ inl (lookup-insert (index_of k) j k d ∙ found e)
  | inr e ↦ other e st
]
  where
    found :
        text_eq (index_of k) j ≡ true
        → (if text_eq (index_of k) j then some k else lookup j d) ≡ some x
    found e = rw e (ap some (only k (Memᴰ.head refl) ((text_eq_iff (index_of k) j).0 e)))

    other :
        text_eq (index_of k) j ≡ false
        → Stored (k ∷ keys) d j x
        → Stored keys (insert (index_of k) k d) j x
    other e (inl h) = inl (lookup-insert (index_of k) j k d ∙ (rw e h))
    other e (inr (Memᴰ.head q, i)) =
        absurd (clash (sym e ∙ (text_eq_iff (index_of k) j).1 (ap index_of (sym q) ∙ i)))
      where
        clash : false ≡ true → ⊥
        clash h = cc
    other e (inr (Memᴰ.tail m, i)) = inr (m, i)

-- A record is found where every record of that index is it.
index_from-finds :
    (keys : List VerificationKeyRecord) (d : Dict VerificationKeyRecord) (j : Text)
    (x : VerificationKeyRecord)
    → Only keys j x
    → Stored keys d j x
    → lookup j (index_from keys d) ≡ some x
unfolding index_from
index_from-finds [] d j x only (inl h) = h
index_from-finds [] d j x only (inr (m, i)) = elim m [ ]
index_from-finds (k ∷ keys) d j x only st =
    index_from-finds keys (insert (index_of k) k d) j x (λ r m. only r (Memᴰ.tail m))
      (Stored-step k keys d j x only st)

-- What the index finds was there, or is a record of that index.
index_from-source :
    (keys : List VerificationKeyRecord) (d : Dict VerificationKeyRecord) (j : Text)
    (x : VerificationKeyRecord)
    → lookup j (index_from keys d) ≡ some x
    → Stored keys d j x
unfolding index_from
index_from-source [] d j x h = inl h
index_from-source (k ∷ keys) d j x h = back (index_from-source keys (insert (index_of k) k d) j x h)
  where
    back : Stored keys (insert (index_of k) k d) j x → Stored (k ∷ keys) d j x
    back (inr (m, i)) = inr (Memᴰ.tail m, i)
    back (inl h) = elim (Bool-cases (text_eq (index_of k) j)) [
      | inl e ↦ inr (Memᴰ.head (same e), ap index_of (same e) ∙ (text_eq_iff (index_of k) j).0 e)
      | inr e ↦ inl (kept e)
    ]
      where
        same : text_eq (index_of k) j ≡ true → x ≡ k
        same e = let g = sym (lookup-insert (index_of k) j k d) ∙ h in ground arith

        kept : text_eq (index_of k) j ≡ false → lookup j d ≡ some x
        kept e = let g = sym (lookup-insert (index_of k) j k d) ∙ h in ground arith

module _ (records : List VerificationKeyRecord) (history : CompiledHistory)
    (compiled : compile_verification_key_history records ≡ ok history) where
  compiled_parts :
      (validate_verification_key_history records ≡ ok tt)
      × (history.records ≡ records)
      × (history.index ≡ index_from records [])
  unfolding compile_verification_key_history
  compiled_parts = ground arith

  same_index :
      (r s : VerificationKeyRecord)
      → Memᴰ r records
      → Memᴰ s records
      → index_of s ≡ index_of r
      → s ≡ r
  same_index r s m n e =
      let valid = compiled_parts.0 in
      let parts =
        key_version_index_injective s.key_id r.key_id s.key_version r.key_version
          (key_id-NoNul s (records_valid records valid n))
          (key_id-NoNul r (records_valid records valid m)) e in
      version_unique records valid n m parts.0 parts.1

  -- A compiled history finds each of its records under the record's own key and version.
  pub lookup_key-finds :
      (r : VerificationKeyRecord)
      → Memᴰ r records
      → lookup_key history r.key_id r.key_version ≡ some r
  unfolding lookup_key
  lookup_key-finds r m =
      rw (compiled_parts.2)
        (index_from-finds records [] (index_of r) r (λ s n e. same_index r s m n e) (inr (m, refl)))

  -- What a compiled history finds is a record of the history, of that index.
  pub lookup_key-source :
      (key_id : Text) (version : ℕ) (r : VerificationKeyRecord)
      → lookup_key history key_id version ≡ some r
      → Memᴰ r records × (index_of r ≡ key_version_index key_id version)
  unfolding lookup_key
  lookup_key-source key_id version r h = back (
      index_from-source records [] (key_version_index key_id version) r
        (rw (compiled_parts.2) at h))
    where
      back :
          Stored records [] (key_version_index key_id version) r
          → Memᴰ r records × (index_of r ≡ key_version_index key_id version)
      back (inl h) = cc
      back (inr p) = p

-- In a compiled history the lookup of a key without NUL and a version finds exactly the record of
-- the history that has this key and this version.
pub lookup_key-exact :
    (records : List VerificationKeyRecord) (history : CompiledHistory)
    → compile_verification_key_history records ≡ ok history
    → (key_id : Text) (version : ℕ) (r : VerificationKeyRecord) → NoNul key_id
    → (lookup_key history key_id version ≡ some r)
      ↔ (Memᴰ r records × (r.key_id ≡ key_id) × (r.key_version ≡ version))
lookup_key-exact records history compiled key_id version r free = (found, finds)
  where
    found :
        lookup_key history key_id version ≡ some r
        → Memᴰ r records × (r.key_id ≡ key_id) × (r.key_version ≡ version)
    found h =
        let source = lookup_key-source records history compiled key_id version r h in
        let valid = records_valid records (compiled_parts records history compiled).0 source.0 in
        let parts =
          key_version_index_injective r.key_id key_id r.key_version version (key_id-NoNul r valid)
            free source.1 in
        (source.0, parts.0, parts.1)

    finds :
        Memᴰ r records × (r.key_id ≡ key_id) × (r.key_version ≡ version)
        → lookup_key history key_id version ≡ some r
    finds (m, k, v) = rw (← k, ← v) (lookup_key-finds records history compiled r m)
