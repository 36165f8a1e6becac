-- ===== src/Correct/Persisting/Refinement.antt =====
-- The persistent cache refines a map of programs with times, over a store that does not fail.
use mathlib.Core.Path.{subst}
use risk_engine.Prelude.{
  ◌≡◌, refl, ◌∙◌, ap, true, false, Option, none, some, List, [], ◌∷◌, Str, str_eq, str_eq_refl,
  Bool-cases, inl, inr, map,
}
use risk_engine.Prelude.Int.{ℤ, ◌+ℤ◌}
use risk_engine.Outcome.{ok, bind-eq-ok}
use risk_engine.Runtime.{Floats}
use risk_engine.Bytecode.{BytecodeProgram}
use risk_engine.Compiler.{CompiledExpr}
use risk_engine.Snapshot.{snapshot_compiled_expr, restore_compiled_expr}
use risk_engine.GoMap.{
  find, put, remove, string_keys, find-put_same, find-put_other, find-remove_other,
}
use risk_engine.Correct.Restoring.{restore_compiled_expr-snapshot_compiled_expr}
use risk_engine.Persistent
use risk_engine.Persistent.{
  PersistedProgramEntry, PersistentProgramStore, LocalCache, PersistentProgramCache, done,
  has_expired, local_entry_expired, delete_local, use_entry, get_stored, save_entry,
  new_persistent_program_cache, clamp_ttl,
}
use risk_engine.Correct.Persisting.Calls.{Call, get_at, set_at, invalidate_at, without_trees}
use risk_engine.Correct.Persisting.Reliable.{
  Reliable, Served, served_with, found_at, serve, serve_all, stripped, answer, answers,
}

module _ {D : Type 0} ⦃fl : Floats D⦄ (fingerprint : BytecodeProgram D → Str)
    (store : PersistentProgramStore D) (local : LocalCache (CompiledExpr D)) where
  abbrev Cache : Type 0
  Cache = PersistentProgramCache store.State local.State

  module _ (reliable : Reliable store) (delete_key : Str → local.State → local.State)
      (deletes : local.delete ≡ some delete_key) (ttl : ℤ) where
    abbrev Programs : Type 0
    Programs = Served (CompiledExpr D)

    -- An entry of the store for one of the map.
    abbrev Saves : Option (CompiledExpr D × ℤ) → Option (PersistedProgramEntry D) → Type 0
    Saves none none = Unit
    Saves none (some e) = ⊥
    Saves (some p) none = ⊥
    Saves (some (v, t)) (some e) =
        (e.expires_at ≡ t)
        × ((w : CompiledExpr D) × (restore_compiled_expr e.compiled ≡ ok w)
            × (without_trees w ≡ without_trees v))

    abbrev Noted : Programs → List (Str × ℤ) → Str → CompiledExpr D → Type 0
    Noted m expiry k w =
        (v : CompiledExpr D) × ((t : ℤ) × (m k ≡ some (v, t))
          × (find k expiry ≡ some t)
          × (without_trees w ≡ without_trees v))

    record Matches (m : Programs) (c : Cache) : Type 0 where
      same_ttl : c.ttl ≡ ttl
      state : store.State
      is_stored : c.stored ≡ some state
      saved : (k : Str) → Saves (m k) (reliable.entries state k)
      kept : local.Holds (Noted m c.local_expiry) c.local

    with-other :
        (k j : Str) (p : Option (CompiledExpr D × ℤ)) (m : Programs)
        → str_eq k j ≡ false
        → served_with k p m j ≡ m j
    with-other k j p m e = rw e refl

    Noted-put :
        (k : Str) (p : Option (CompiledExpr D × ℤ)) (t : ℤ) (m : Programs) (x : List (Str × ℤ))
        (j : Str) (w : CompiledExpr D)
        → str_eq k j ≡ false
        → Noted m x j w
        → Noted (served_with k p m) (put k t x) j w
    Noted-put k p t m x j w e (v, (u, there, noted, same)) =
        (v, (u, with-other k j p m e ∙ there, find-put_other k j t x e ∙ noted, same))

    Noted-remove :
        (k : Str) (m : Programs) (x : List (Str × ℤ)) (j : Str) (w : CompiledExpr D)
        → str_eq k j ≡ false
        → Noted m x j w
        → Noted (served_with k none m) (remove k x) j w
    Noted-remove k m x j w e (v, (u, there, noted, same)) =
        (v, (u, with-other k j none m e ∙ there, find-remove_other k j x e ∙ noted, same))

    Noted-without :
        (k : Str) (m : Programs) (x : List (Str × ℤ)) (j : Str) (w : CompiledExpr D)
        → str_eq k j ≡ false
        → Noted m x j w
        → Noted (served_with k none m) x j w
    Noted-without k m x j w e (v, (u, there, noted, same)) =
        (v, (u, with-other k j none m e ∙ there, noted, same))

    delete-Saves :
        (k : Str) (m : Programs) (s : store.State)
        → ((j : Str) → Saves (m j) (reliable.entries s j))
        → (j : Str) → Saves (served_with k none m j) (reliable.entries (store.delete k s).1 j)
    delete-Saves k m s h j = elim (Bool-cases (str_eq k j)) [
      | inl e ↦ rw (reliable.delete_entries k j s, e) tt
      | inr e ↦ rw (reliable.delete_entries k j s, e) (h j)
    ]

    load-Saves :
        (k : Str) (m : Programs) (s : store.State)
        → ((j : Str) → Saves (m j) (reliable.entries s j))
        → (j : Str) → Saves (m j) (reliable.entries (store.load k s).1 j)
    load-Saves k m s h j = rw (reliable.load_keeps k j s) (h j)

    -- A step: what it answers, up to trees, and the state that it leaves.
    record Simulates (r : Option (CompiledExpr D) × Cache) (q : Option (CompiledExpr D) × Programs)
        : Type 0 where
      same_answer : stripped r.0 ≡ stripped q.0
      after : Matches q.1 r.1

    -- The stored entry of an expired program is deleted.
    stored_expired :
        (now : ℤ) (k : Str) (v : CompiledExpr D) (t : ℤ) (m : Programs) (c : Cache)
        (s : store.State)
        → c.ttl ≡ ttl
        → c.stored ≡ some s
        → ((j : Str) → Saves (m j) (reliable.entries s j))
        → m k ≡ some (v, t)
        → has_expired now t ≡ true
        → local.Holds (Noted (served_with k none m) c.local_expiry) c.local
        → Simulates (get_stored fingerprint store local now k c) (none, served_with k none m)
    unfolding get_stored use_entry
    stored_expired now k v t m c s same_ttl is_stored saved there old kept =
        by_entry (reliable.entries s k) refl
      where
        here : Saves (some (v, t)) (reliable.entries s k)
        here = subst (λ p. Saves p (reliable.entries s k)) there (saved k)

        by_entry :
            (o : Option (PersistedProgramEntry D))
            → reliable.entries s k ≡ o
            → Simulates (get_stored fingerprint store local now k c) (none, served_with k none m)
        by_entry none e = absurd (subst (Saves (some (v, t))) e here)
        by_entry (some entry) e =
            let (until, rest) = subst (Saves (some (v, t))) e here in
            let old' : has_expired now entry.expires_at ≡ true = ap (has_expired now) until ∙ old in
            rw (get_stored, is_stored, reliable.loads k s, e, use_entry, old')
              (record {
                same_answer = refl;
                after = record {
                  same_ttl = same_ttl;
                  state = (store.delete k (store.load k s).1).1;
                  is_stored = refl;
                  saved = delete-Saves k m (store.load k s).1 (load-Saves k m s saved);
                  kept = kept;
                };
              })

    -- One that has not expired is restored.
    stored_fresh :
        (now : ℤ) (k : Str) (v : CompiledExpr D) (t : ℤ) (m : Programs) (c : Cache)
        (s : store.State)
        → c.ttl ≡ ttl
        → c.stored ≡ some s
        → ((j : Str) → Saves (m j) (reliable.entries s j))
        → m k ≡ some (v, t)
        → has_expired now t ≡ false
        → local.Holds (Noted m c.local_expiry) c.local
        → Simulates (get_stored fingerprint store local now k c) (some v, m)
    unfolding get_stored use_entry
    stored_fresh now k v t m c s same_ttl is_stored saved there fresh kept =
        by_entry (reliable.entries s k) refl
      where
        here : Saves (some (v, t)) (reliable.entries s k)
        here = subst (λ p. Saves p (reliable.entries s k)) there (saved k)

        by_entry :
            (o : Option (PersistedProgramEntry D))
            → reliable.entries s k ≡ o
            → Simulates (get_stored fingerprint store local now k c) (some v, m)
        by_entry none e = absurd (subst (Saves (some (v, t))) e here)
        by_entry (some entry) e =
            let (until, (w, restored, same)) = subst (Saves (some (v, t))) e here in
            let fresh' : has_expired now entry.expires_at ≡ false =
              ap (has_expired now) until ∙ fresh in
            rw (get_stored, is_stored, reliable.loads k s, e, use_entry, fresh', restored)
              (record {
                same_answer = ap some same;
                after = record {
                  same_ttl = same_ttl;
                  state = (store.load k s).1;
                  is_stored = refl;
                  saved = load-Saves k m s saved;
                  kept =
                      local.set-Holds (Noted m c.local_expiry)
                        (Noted m (put k entry.expires_at c.local_expiry)) k w c.local kept
                        (
                          v,
                          (
                            t,
                            there,
                            find-put_same k entry.expires_at c.local_expiry ∙ ap some until,
                            same,
                          ),
                        )
                        λ j x other (v', (u, there', noted, same')). (
                          v',
                          (
                            u,
                            there',
                            find-put_other k j entry.expires_at c.local_expiry other ∙ noted,
                            same',
                          ),
                        );
                };
              })

    -- A key without a program is not in the store.
    stored_absent :
        (now : ℤ) (k : Str) (m : Programs) (c : Cache)
        → Matches m c
        → m k ≡ none
        → Simulates (get_stored fingerprint store local now k c) (none, m)
    unfolding get_stored
    stored_absent now k m c i gone = by_entry (reliable.entries i.state k) refl
      where
        here : Saves none (reliable.entries i.state k)
        here = subst (λ p. Saves p (reliable.entries i.state k)) gone (i.saved k)

        by_entry :
            (o : Option (PersistedProgramEntry D))
            → reliable.entries i.state k ≡ o
            → Simulates (get_stored fingerprint store local now k c) (none, m)
        by_entry (some entry) e = absurd (subst (Saves none) e here)
        by_entry none e =
            rw (get_stored, i.is_stored, reliable.loads k i.state, e)
              (record {
                same_answer = refl;
                after = record {
                  same_ttl = i.same_ttl;
                  state = (store.load k i.state).1;
                  is_stored = refl;
                  saved = load-Saves k m i.state i.saved;
                  kept = i.kept;
                };
              })

    abbrev looked : Str → Cache → Cache
    looked k c = record c { local = (local.get k c.local).1 }

    looked-Matches : (k : Str) (m : Programs) (c : Cache) → Matches m c → Matches m (looked k c)
    looked-Matches k m c i = record {
      same_ttl = i.same_ttl;
      state = i.state;
      is_stored = i.is_stored;
      saved = i.saved;
      kept = local.get-Holds (Noted m c.local_expiry) k c.local i.kept;
    }

    -- A key that the local cache does not have.
    missed-Simulates :
        (now : ℤ) (k : Str) (m : Programs) (c : Cache)
        → Matches m c
        → (local.get k c.local).0 ≡ none
        → Simulates (get_stored fingerprint store local now k (looked k c)) (found_at now k (m k) m)
    missed-Simulates now k m c i missed = by_program (m k) refl
      where
        by_program :
            (p : Option (CompiledExpr D × ℤ))
            → m k ≡ p
            → Simulates (get_stored fingerprint store local now k (looked k c)) (found_at now k p m)
        by_program none e = stored_absent now k m (looked k c) (looked-Matches k m c i) e
        by_program (some (v, t)) e = elim (Bool-cases (has_expired now t)) [
          | inl old ↦ rw old (
              stored_expired now k v t m (looked k c) i.state i.same_ttl i.is_stored i.saved e old (
                local.get_missed (Noted m c.local_expiry)
                  (Noted (served_with k none m) c.local_expiry) k c.local i.kept missed
                  (Noted-without k m c.local_expiry)))
          | inr fresh ↦ rw fresh (
              stored_fresh now k v t m (looked k c) i.state i.same_ttl i.is_stored i.saved e fresh
                (local.get-Holds (Noted m c.local_expiry) k c.local i.kept))
        ]

    get-Simulates :
        (now : ℤ) (k : Str) (m : Programs) (c : Cache)
        → Matches m c
        → Simulates (Persistent.get fingerprint store local now k c) (found_at now k (m k) m)
    unfolding Persistent.get local_entry_expired delete_local
    get-Simulates now k m c i = by_local (local.get k c.local).0 refl
      where
        by_local :
            (o : Option (CompiledExpr D))
            → (local.get k c.local).0 ≡ o
            → Simulates (Persistent.get fingerprint store local now k c) (found_at now k (m k) m)
        by_local none e = rw (Persistent.get, e) (missed-Simulates now k m c i e)
        by_local (some w) e =
            let (v, (t, there, noted, same)) =
              local.get_found (Noted m c.local_expiry) k c.local w i.kept e in
            elim (Bool-cases (has_expired now t)) [
              | inl old ↦
                  rw
                    (
                      there, old, Persistent.get, e, local_entry_expired, noted, old, delete_local,
                      deletes,
                    )
                    (stored_expired now k v t m
                      (record c {
                        local = delete_key k (local.get k c.local).1;
                        local_expiry = remove k c.local_expiry;
                      })
                      i.state i.same_ttl i.is_stored i.saved there old
                      (local.delete-Holds delete_key deletes (Noted m c.local_expiry)
                        (Noted (served_with k none m) (remove k c.local_expiry)) k
                        (local.get k c.local).1
                        (local.get-Holds (Noted m c.local_expiry) k c.local i.kept)
                        (Noted-remove k m c.local_expiry)))
              | inr fresh ↦
                  rw (there, fresh, Persistent.get, e, local_entry_expired, noted, fresh)
                    (record { same_answer = ap some same; after = looked-Matches k m c i })
            ]

    -- A snapshot of a program that is set is an entry for it.
    saved_snapshot :
        (v : CompiledExpr D) (t : ℤ) (e : PersistedProgramEntry D)
        → snapshot_compiled_expr v ≡ ok e.compiled
        → e.expires_at ≡ t
        → Saves (some (v, t)) (some e)
    saved_snapshot v t e taken until =
        let (w, back, same, rest) = restore_compiled_expr-snapshot_compiled_expr v in
        (until, (w, (rw taken at back), ap without_trees same))

    set-Matches :
        (now : ℤ) (k : Str) (v : CompiledExpr D) (m : Programs) (c : Cache)
        → Matches m c
        → Matches
            (served_with k (some (v, now +ℤ ttl)) m)
            (Persistent.set fingerprint store local now k v c)
    unfolding Persistent.set save_entry
    set-Matches now k v m c i =
        let (w, back, same, rest) = restore_compiled_expr-snapshot_compiled_expr v in
        let (snapshot, taken, restored) = bind-eq-ok (snapshot_compiled_expr v) _ back in
        rw (Persistent.set, i.is_stored, save_entry, taken)
          (saved_with
            (record {
              key = k;
              fingerprint = fingerprint v.bytecode;
              created_at = now;
              expires_at = now +ℤ c.ttl;
              compiled = snapshot;
            })
            refl taken (ap (λ x. now +ℤ x) i.same_ttl))
      where
        saved_with :
            (e : PersistedProgramEntry D)
            → e.key ≡ k
            → snapshot_compiled_expr v ≡ ok e.compiled
            → e.expires_at ≡ now +ℤ ttl
            → Matches (served_with k (some (v, now +ℤ ttl)) m) (record c {
              stored = some (store.save e i.state).1;
              local = local.set k v c.local;
              local_expiry = put k (now +ℤ c.ttl) c.local_expiry;
            })
        saved_with e same_key taken until = record {
          same_ttl = i.same_ttl;
          state = (store.save e i.state).1;
          is_stored = refl;
          saved = λ j. elim (Bool-cases (str_eq k j)) [
            | inl f ↦
                rw (reliable.save_entries e j i.state, same_key, f)
                  (saved_snapshot v (now +ℤ ttl) e taken until)
            | inr f ↦ rw (reliable.save_entries e j i.state, same_key, f) (i.saved j)
          ];
          kept =
              local.set-Holds (Noted m c.local_expiry)
                (Noted (served_with k (some (v, now +ℤ ttl)) m)
                  (put k (now +ℤ c.ttl) c.local_expiry))
                k v c.local i.kept
                (
                  v,
                  (
                    now +ℤ ttl,
                    rw (str_eq_refl k) refl,
                    find-put_same k (now +ℤ c.ttl) c.local_expiry
                        ∙ ap (λ x. some (now +ℤ x)) i.same_ttl,
                    refl,
                  ),
                )
                (Noted-put k (some (v, now +ℤ ttl)) (now +ℤ c.ttl) m c.local_expiry);
        }

    invalidate-Matches :
        (k : Str) (m : Programs) (c : Cache)
        → Matches m c
        → Matches (served_with k none m) (Persistent.invalidate fingerprint store local k c).1
    unfolding Persistent.invalidate delete_local
    invalidate-Matches k m c i =
        rw (Persistent.invalidate, i.is_stored, delete_local, deletes)
          (record {
            same_ttl = i.same_ttl;
            state = (store.delete k i.state).1;
            is_stored = refl;
            saved = delete-Saves k m i.state i.saved;
            kept =
                local.delete-Holds delete_key deletes (Noted m c.local_expiry)
                  (Noted (served_with k none m) (remove k c.local_expiry)) k c.local i.kept
                  (Noted-remove k m c.local_expiry);
          })

    answer-Simulates :
        (call : Call D) (m : Programs) (c : Cache)
        → Matches m c
        → Simulates (answer fingerprint store local call c) (serve ttl call m)
    answer-Simulates (get_at now k) m c i = get-Simulates now k m c i
    answer-Simulates (set_at now k v) m c i = record {
      same_answer = refl;
      after = set-Matches now k v m c i;
    }
    answer-Simulates (invalidate_at k) m c i = record {
      same_answer = refl;
      after = invalidate-Matches k m c i;
    }

    answers-from :
        (calls : List (Call D)) (m : Programs) (c : Cache)
        → Matches m c
        → map stripped (answers fingerprint store local calls c)
          ≡ map stripped (serve_all ttl calls m)
    answers-from [] m c i = refl
    answers-from (call ∷ calls) m c i =
        let step : Simulates (answer fingerprint store local call c) (serve ttl call m) =
          answer-Simulates call m c i in
        let rest =
          answers-from calls (serve ttl call m).1 (answer fingerprint store local call c).1
            step.after in
        λ j. step.same_answer j ∷ rest j

-- Over a store that does not fail, with a local cache that can delete, however little it keeps, a new persistent
-- cache answers any calls as a map of programs with times does, up to trees: a program is found under the key
-- that it was last set for until the time to live has passed since or the key is invalidated.
pub answers-serve_all :
    {D : Type 0} ⦃fl : Floats D⦄ (fingerprint : BytecodeProgram D → Str)
    (store : PersistentProgramStore D) (reliable : Reliable store)
    (local : LocalCache (CompiledExpr D)) (delete_key : Str → local.State → local.State)
    (deletes : local.delete ≡ some delete_key) (ttl : ℤ) (calls : List (Call D))
    → map stripped (
        answers fingerprint store local calls
          (new_persistent_program_cache (some store.new) local.new ttl))
      ≡ map stripped (serve_all (clamp_ttl ttl) calls (λ k. none))
answers-serve_all fingerprint store reliable local delete_key deletes ttl calls =
    answers-from fingerprint store local reliable delete_key deletes (clamp_ttl ttl) calls _ _
      (record {
        same_ttl = refl;
        state = store.new;
        is_stored = refl;
        saved = λ k. rw (reliable.new_entries k) tt;
        kept = local.new-Holds _;
      })
