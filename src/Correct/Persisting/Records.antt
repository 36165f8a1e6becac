-- ===== src/Correct/Persisting/Records.antt =====
-- What a persistent cache keeps is what may be served, at every operation.
use mathlib.Core.Path.{subst}
use risk_engine.Prelude.{
  ◌≡◌, refl, sym, ◌∙◌, ap, false, Option, none, some, List, Str, str_eq, Bool-cases, inl, inr,
}
use risk_engine.Prelude.Int.{ℤ, ◌+ℤ◌}
use risk_engine.Outcome.{Outcome, ok, err, panic}
use risk_engine.Runtime.{Floats}
use risk_engine.Bytecode.{BytecodeProgram}
use risk_engine.Compiler.{CompiledExpr}
use risk_engine.Snapshot.{CompiledExprSnapshot, snapshot_compiled_expr, restore_compiled_expr}
use risk_engine.GoMap.{
  find, put, remove, string_keys, find-put_same, find-put_other, find-remove_other,
}
use risk_engine.Correct.Restoring.{restore_compiled_expr-snapshot_compiled_expr}
use risk_engine.Persistent.{
  PersistedProgramEntry, PersistentProgramStore, LocalCache, PersistentProgramCache, StoreResult,
  done, failed, has_expired, local_entry_expired, delete_local, use_entry, get_stored, save_entry,
  new_persistent_program_cache, clamp_ttl,
}
use risk_engine.Persistent
use risk_engine.Cache.{bump}
use risk_engine.Correct.Persisting.Calls.{without_trees}

module _ {D : Type 0} ⦃fl : Floats D⦄ (fingerprint : BytecodeProgram D → Str)
    (store : PersistentProgramStore D) (local : LocalCache (CompiledExpr D))
    (delete_key : Str → local.State → local.State) (deletes : local.delete ≡ some delete_key) where
  abbrev pub Cache : Type 0
  Cache = PersistentProgramCache store.State local.State

  -- `P k v t`: the value `v` may be served under `k` until `t`.
  module _ (ttl : ℤ) (P : Str → CompiledExpr D → ℤ → Type 0)
      (up_to_trees : (k : Str) (v w : CompiledExpr D) (t : ℤ)
        → without_trees v ≡ without_trees w
        → P k w t
        → P k v t) where
    abbrev pub Noted : List (Str × ℤ) → Str → CompiledExpr D → Type 0
    Noted expiry k v = (t : ℤ) × (find k expiry ≡ some t) × P k v t

    abbrev pub Saved : Str → PersistedProgramEntry D → Type 0
    Saved k e = (v : CompiledExpr D) → restore_compiled_expr e.compiled ≡ ok v → P k v e.expires_at

    abbrev pub StoreHolds : Option store.State → Type 0
    StoreHolds none = Unit
    StoreHolds (some s) = store.Holds Saved s

    pub record IsRecorded (c : Cache) : Type 0 where
      pub same_ttl : c.ttl ≡ ttl
      pub kept : local.Holds (Noted c.local_expiry) c.local
      pub saved : StoreHolds c.stored

    -- Another key's note stands when a key is noted or dropped.
    Noted-put :
        (k : Str) (t : ℤ) (m : List (Str × ℤ)) (j : Str) (w : CompiledExpr D)
        → str_eq k j ≡ false
        → Noted m j w
        → Noted (put k t m) j w
    Noted-put k t m j w e (u, found, p) = (u, find-put_other k j t m e ∙ found, p)

    Noted-remove :
        (k : Str) (m : List (Str × ℤ)) (j : Str) (w : CompiledExpr D)
        → str_eq k j ≡ false
        → Noted m j w
        → Noted (remove k m) j w
    Noted-remove k m j w e (u, found, p) = (u, find-remove_other k j m e ∙ found, p)

    delete_local-IsRecorded :
        (k : Str) (c : Cache) → IsRecorded c → IsRecorded (delete_local fingerprint store local k c)
    unfolding delete_local
    delete_local-IsRecorded k c i =
        rw (delete_local, deletes)
          (record {
            same_ttl = i.same_ttl;
            kept =
                local.delete-Holds delete_key deletes (Noted c.local_expiry)
                  (Noted (remove k c.local_expiry)) k c.local i.kept
                  (Noted-remove k c.local_expiry);
            saved = i.saved;
          })

    -- A store's new state.
    stored-IsRecorded :
        (s : store.State) (c : Cache)
        → IsRecorded c
        → store.Holds Saved s
        → IsRecorded (record c { stored = some s })
    stored-IsRecorded s c i h = record { same_ttl = i.same_ttl; kept = i.kept; saved = h }

    -- A value with a time that it may be served until.
    keep-IsRecorded :
        (k : Str) (v : CompiledExpr D) (t : ℤ) (c : Cache)
        → IsRecorded c
        → P k v t
        → IsRecorded
            (record c { local = local.set k v c.local; local_expiry = put k t c.local_expiry })
    keep-IsRecorded k v t c i p = record {
      same_ttl = i.same_ttl;
      kept =
          local.set-Holds (Noted c.local_expiry) (Noted (put k t c.local_expiry)) k v c.local i.kept
            (t, find-put_same k t c.local_expiry, p) (Noted-put k t c.local_expiry);
      saved = i.saved;
    }

    -- What a step may answer, and the state that it leaves.
    pub record Answers (now : ℤ) (k : Str) (r : Option (CompiledExpr D) × Cache) : Type 0 where
      pub state : IsRecorded r.1
      pub right :
          (v : CompiledExpr D) → r.0 ≡ some v → (t : ℤ) × P k v t × (has_expired now t ≡ false)

    no_answer : (now : ℤ) (k : Str) (c : Cache) → IsRecorded c → Answers now k (none, c)
    no_answer now k c i = record { state = i; right = λ v e. absurd (let g = e in cc) }

    an_answer :
        (now : ℤ) (k : Str) (c : Cache) (v : CompiledExpr D) (t : ℤ)
        → IsRecorded c
        → P k v t
        → has_expired now t ≡ false
        → Answers now k (some v, c)
    an_answer now k c v t i p fresh = record {
      state = i;
      right = λ w e. (t, subst (λ x. P k x t) (let g = e in cc) p, fresh);
    }

    use_entry-Answers :
        (now : ℤ) (k : Str) (e : PersistedProgramEntry D) (s : store.State) (c : Cache)
        → IsRecorded c
        → store.Holds Saved s
        → Saved k e
        → Answers now k (use_entry fingerprint store local now k e s c)
    unfolding use_entry
    use_entry-Answers now k e s c i h saved =
        let dropped : Answers now k (none, record c { stored = some (store.delete k s).1 }) =
          no_answer now k _
            (stored-IsRecorded (store.delete k s).1 c i (store.delete-Holds Saved k s h)) in
        elim (Bool-cases (has_expired now e.expires_at)) [
          | inl old ↦ rw (use_entry, old) dropped
          | inr fresh ↦ restored dropped fresh (restore_compiled_expr e.compiled) refl
        ]
      where
        restored :
            Answers now k (none, record c { stored = some (store.delete k s).1 })
            → has_expired now e.expires_at ≡ false
            → (o : Outcome (CompiledExpr D)) → restore_compiled_expr e.compiled ≡ o
            → Answers now k (use_entry fingerprint store local now k e s c)
        restored dropped fresh (ok v) got =
            rw (use_entry, fresh, got)
              (an_answer now k _ v e.expires_at
                (keep-IsRecorded k v e.expires_at _ (stored-IsRecorded s c i h) (saved v got))
                (saved v got) fresh)
        restored dropped fresh (err x) got = rw (use_entry, fresh, got) dropped
        restored dropped fresh panic got = rw (use_entry, fresh, got) dropped

    get_stored-Answers :
        (now : ℤ) (k : Str) (c : Cache)
        → IsRecorded c
        → Answers now k (get_stored fingerprint store local now k c)
    unfolding get_stored
    get_stored-Answers now k c i = of_store c.stored refl
      where
        of_store :
            (o : Option store.State)
            → c.stored ≡ o
            → Answers now k (get_stored fingerprint store local now k c)
        of_store none e = rw (get_stored, e) (no_answer now k c i)
        of_store (some s) e = loaded (store.load k s).0 refl
          where
            held : store.Holds Saved s
            held = subst StoreHolds e i.saved

            after : store.Holds Saved (store.load k s).1
            after = store.load-Holds Saved k s held

            loaded :
                (o : StoreResult (Option (PersistedProgramEntry D)))
                → (store.load k s).0 ≡ o
                → Answers now k (get_stored fingerprint store local now k c)
            loaded (done (some entry)) got =
                rw (get_stored, e, got)
                  (use_entry-Answers now k entry (store.load k s).1 c i after
                    (store.load_found Saved k s entry held got))
            loaded (done none) got =
                rw (get_stored, e, got)
                  (no_answer now k _ (stored-IsRecorded (store.load k s).1 c i after))
            loaded failed got =
                rw (get_stored, e, got)
                  (no_answer now k _ (stored-IsRecorded (store.load k s).1 c i after))

    abbrev looked : Str → Cache → Cache
    looked k c = record c { local = (local.get k c.local).1 }

    pub get-Answers :
        (now : ℤ) (k : Str) (c : Cache)
        → IsRecorded c
        → Answers now k (Persistent.get fingerprint store local now k c)
    unfolding Persistent.get local_entry_expired
    get-Answers now k c i = found (local.get k c.local).0 refl
      where
        looked-IsRecorded : IsRecorded (looked k c)
        looked-IsRecorded = record {
          same_ttl = i.same_ttl;
          kept = local.get-Holds (Noted c.local_expiry) k c.local i.kept;
          saved = i.saved;
        }

        found :
            (o : Option (CompiledExpr D))
            → (local.get k c.local).0 ≡ o
            → Answers now k (Persistent.get fingerprint store local now k c)
        found none e =
            rw (Persistent.get, e) (get_stored-Answers now k (looked k c) looked-IsRecorded)
        found (some v) e =
            let (t, noted, p) = local.get_found (Noted c.local_expiry) k c.local v i.kept e in
            elim (Bool-cases (has_expired now t)) [
              | inl old ↦
                  rw (Persistent.get, e, local_entry_expired, noted, old)
                    (get_stored-Answers now k _
                      (delete_local-IsRecorded k (looked k c) looked-IsRecorded))
              | inr fresh ↦
                  rw (Persistent.get, e, local_entry_expired, noted, fresh)
                    (an_answer now k (looked k c) v t looked-IsRecorded p fresh)
            ]

    -- What is restored from a snapshot may be served as what it was taken of.
    snapshot-Saved :
        (k : Str) (v : CompiledExpr D) (t : ℤ) (e : PersistedProgramEntry D)
        → P k v t
        → snapshot_compiled_expr v ≡ ok e.compiled
        → e.expires_at ≡ t
        → Saved k e
    snapshot-Saved k v t e p taken until w restored =
        let (c, back, same, rest) = restore_compiled_expr-snapshot_compiled_expr v in
        let again : restore_compiled_expr e.compiled ≡ ok c = (rw taken at back) in
        let same' : w ≡ without_trees v = outcome_eq (sym restored ∙ again) ∙ same in
        subst (λ x. P k w x) (sym until) (up_to_trees k w v t (ap without_trees same') p)
      where
        outcome_eq : {a b : CompiledExpr D} → ok a ≡ ok b → a ≡ b
        outcome_eq h = cc

    abbrev entry_of :
        ℤ → Str → CompiledExpr D → ℤ → CompiledExprSnapshot D → PersistedProgramEntry D
    entry_of now k v t snapshot = record {
      key = k;
      fingerprint = fingerprint v.bytecode;
      created_at = now;
      expires_at = t;
      compiled = snapshot;
    }

    save_entry-IsRecorded :
        (now : ℤ) (k : Str) (v : CompiledExpr D) (s : store.State) (c : Cache)
        → IsRecorded c
        → store.Holds Saved s
        → P k v (now +ℤ ttl)
        → IsRecorded (save_entry fingerprint store local now k v s c)
    unfolding save_entry
    save_entry-IsRecorded now k v s c i h p = saved (snapshot_compiled_expr v) refl
      where
        saved :
            (o : Outcome _)
            → snapshot_compiled_expr v ≡ o
            → IsRecorded (save_entry fingerprint store local now k v s c)
        saved (ok snapshot) e =
            rw (save_entry, e)
              (stored-IsRecorded _ c i (
                store.save-Holds Saved (entry_of now k v (now +ℤ c.ttl) snapshot) s h (
                  snapshot-Saved k v (now +ℤ ttl) (entry_of now k v (now +ℤ c.ttl) snapshot) p e
                    (ap (λ x. now +ℤ x) i.same_ttl))))
        saved (err x) e = rw (save_entry, e) i
        saved panic e = rw (save_entry, e) i

    pub set-IsRecorded :
        (now : ℤ) (k : Str) (v : CompiledExpr D) (c : Cache)
        → IsRecorded c
        → P k v (now +ℤ ttl)
        → IsRecorded (Persistent.set fingerprint store local now k v c)
    unfolding Persistent.set
    set-IsRecorded now k v c i p = of_store c.stored refl
      where
        kept : IsRecorded (record c {
          local = local.set k v c.local;
          local_expiry = put k (now +ℤ c.ttl) c.local_expiry;
        })
        kept =
            keep-IsRecorded k v (now +ℤ c.ttl) c i
              (subst (λ x. P k v (now +ℤ x)) (sym i.same_ttl) p)

        of_store :
            (o : Option store.State)
            → c.stored ≡ o
            → IsRecorded (Persistent.set fingerprint store local now k v c)
        of_store none e = rw (Persistent.set, e) kept
        of_store (some s) e =
            rw (Persistent.set, e)
              (save_entry-IsRecorded now k v s _ kept (subst StoreHolds e i.saved) p)

    pub invalidate-IsRecorded :
        (k : Str) (c : Cache)
        → IsRecorded c
        → IsRecorded (Persistent.invalidate fingerprint store local k c).1
    unfolding Persistent.invalidate
    invalidate-IsRecorded k c i = of_store c.stored refl
      where
        counted : Cache
        counted = record c { invalidations = bump c.invalidations }

        gone : IsRecorded (delete_local fingerprint store local k counted)
        gone =
            delete_local-IsRecorded k counted
              (record { same_ttl = i.same_ttl; kept = i.kept; saved = i.saved })

        of_store :
            (o : Option store.State)
            → c.stored ≡ o
            → IsRecorded (Persistent.invalidate fingerprint store local k c).1
        of_store none e = rw (Persistent.invalidate, e) gone
        of_store (some s) e =
            rw (Persistent.invalidate, e)
              (stored-IsRecorded (store.delete k s).1 _ gone
                (store.delete-Holds Saved k s (subst StoreHolds e i.saved)))
