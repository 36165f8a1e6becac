-- ===== src/Correct/Persisting/Locals.antt =====
-- `LRUProgramCache`, the default of `NewPersistentProgramCache`, as its local cache.
use mathlib.Core.Path.{subst}
use risk_engine.Prelude.{
  ◌≡◌, sym, ◌∙◌, ap, false, none, some, List, ◌∷◌, Str, str_eq, Bool-cases, inl, inr, eq_of_str_eq,
}
use risk_engine.Prelude.Int.{ℤ}
use risk_engine.GoMap.{find, remove, string_keys, find-remove_other, find-remove_same}
use risk_engine.Cache.Lru
use risk_engine.Cache.Lru.{LruProgramCache, new_lru_program_cache}
use risk_engine.Persistent.{LocalCache}
use risk_engine.Correct.Caching.Elements.{entries}
use risk_engine.Correct.Caching.Eviction.{entries-Once}
use risk_engine.Correct.Caching.Recency.{
  IsConsistent, get_key, touch, set_key, delete_key, serve-Serves,
}
use risk_engine.Correct.Caching.Interfaces.{
  Everywhere, LruHolds, lru_new, lru_get-Holds, lru_get_found, find-take,
}

module _ {V : Type 0} where
  some_same : {a b : V} → some a ≡ some b → a ≡ b
  some_same h = cc

  -- What holds of the other keys' values holds when one key's is replaced or dropped.
  drop-Everywhere :
      (P Q : Str → V → Type 0) (k : Str) (m : List (Str × V))
      → find k (remove k m) ≡ none
      → Everywhere P m
      → ((j : Str) (w : V) → str_eq k j ≡ false → P j w → Q j w)
      → Everywhere Q (remove k m)
  drop-Everywhere P Q k m gone h others j w found = elim (Bool-cases (str_eq k j)) [
    | inl e ↦ absurd (
        let found' : find k (remove k m) ≡ some w =
          subst (λ x. find x (remove k m) ≡ some w) (sym (eq_of_str_eq k j e)) found in
        cc)
    | inr e ↦ others j w e (h j w (sym (find-remove_other k j m e) ∙ found))
  ]

  replace-Everywhere :
      (P Q : Str → V → Type 0) (k : Str) (v : V) (m : List (Str × V))
      → Everywhere P m
      → Q k v
      → ((j : Str) (w : V) → str_eq k j ≡ false → P j w → Q j w)
      → Everywhere Q ((k, v) ∷ remove k m)
  unfolding find
  replace-Everywhere P Q k v m h q others j w found = elim (Bool-cases (str_eq k j)) [
    | inl e ↦
        let same : some v ≡ some w = (rw (find, e) at found) in
        subst (λ x. Q j x) (some_same same) (subst (λ x. Q x v) (eq_of_str_eq k j e) q)
    | inr e ↦ others j w e (h j w (sym (find-remove_other k j m e) ∙ (rw (find, e) at found)))
  ]

  module _ (c : LruProgramCache V) (ok : IsConsistent c) where
    lru_gone : (k : Str) → find k (remove k (entries c.order)) ≡ none
    lru_gone k = find-remove_same k (entries c.order) (entries-Once c.order ok.index.keys_once)

    pub lru_get_missed :
        (P Q : Str → V → Type 0) (k : Str)
        → Everywhere P (entries c.order)
        → (Lru.get k c).0 ≡ none
        → ((j : Str) (w : V) → str_eq k j ≡ false → P j w → Q j w)
        → LruHolds Q (Lru.get k c).1
    lru_get_missed P Q k h missed others =
        let (ok', cap, answer, state) = serve-Serves c ok (get_key k) in
        let absent : find k (entries c.order) ≡ none = sym answer ∙ missed in
        let same : entries (Lru.get k c).1.order ≡ entries c.order =
          state ∙ ap (λ o. touch k o (entries c.order)) absent in
        (
          ok',
          subst (Everywhere Q) (sym same) λ j w found. elim (Bool-cases (str_eq k j)) [
            | inl e ↦ absurd (
                let found' : find k (entries c.order) ≡ some w =
                  subst (λ x. find x (entries c.order) ≡ some w) (sym (eq_of_str_eq k j e)) found in
                cc)
            | inr e ↦ others j w e (h j w found)
          ],
        )

    pub lru_set-replaces :
        (P Q : Str → V → Type 0) (k : Str) (v : V)
        → Everywhere P (entries c.order)
        → Q k v
        → ((j : Str) (w : V) → str_eq k j ≡ false → P j w → Q j w)
        → LruHolds Q (Lru.set k v c)
    lru_set-replaces P Q k v h q others =
        let (ok', cap, answer, state) = serve-Serves c ok (set_key k v) in
        (
          ok',
          subst (Everywhere Q) (sym state) λ j w found.
              replace-Everywhere P Q k v (entries c.order) h q others j w
                (find-take P c.capacity ((k, v) ∷ remove k (entries c.order)) j w found),
        )

    pub lru_delete-drops :
        (P Q : Str → V → Type 0) (k : Str)
        → Everywhere P (entries c.order)
        → ((j : Str) (w : V) → str_eq k j ≡ false → P j w → Q j w)
        → LruHolds Q (Lru.delete k c)
    lru_delete-drops P Q k h others =
        let (ok', cap, answer, state) = serve-Serves c ok (delete_key k) in
        (
          ok',
          subst (Everywhere Q) (sym state)
              (drop-Everywhere P Q k (entries c.order) (lru_gone k) h others),
        )

pub some_deletes : {A : Type 0} {a b : A} → some a ≡ some b → a ≡ b
some_deletes h = cc

abbrev pub lru_local : {V : Type 0} → ℤ → LocalCache V
lru_local {V} capacity = record {
  State = LruProgramCache V;
  get = Lru.get;
  set = Lru.set;
  delete = some Lru.delete;
  Holds = λ P c. LruHolds P c;
  new = new_lru_program_cache capacity;
  new-Holds = λ P. lru_new P capacity;
  get-Holds = λ P k c h. lru_get-Holds P k c h;
  get_found = λ P k c v h found. lru_get_found P k c v h found;
  get_missed = λ P Q k c (ok, h) missed others. lru_get_missed c ok P Q k h missed others;
  set-Holds = λ P Q k v c (ok, h) q others. lru_set-replaces c ok P Q k v h q others;
  delete-Holds = λ delete_key e P Q k c (ok, h) others.
      subst (λ d. LruHolds Q (d k c)) (some_deletes e) (lru_delete-drops c ok P Q k h others);
}
