-- ===== src/Service/Deletion.antt =====
-- `MemoryService.delete` of services/memory_service.py: the row is hidden, and the act is logged.
use kortex_memory.Prelude.{
  ℕ, ◌<◌, ◌≡◌, refl, sym, ◌∙◌, ap, subst, true, Option, none, some, [], ◌∷◌, ◌++◌, length, All,
  All-map, All-behind, All-both, arith,
}
use kortex_memory.Access.{Principal, can_write}
use kortex_memory.Audit.{
  AuditLog, AuditAction, Event, append, file_under, effective_org, entry_of, new_entry,
}
use kortex_memory.Memories.{Memory, Table, replace_row}
use kortex_memory.Memories.Rows.{
  length-replace_row, IsOrdered, Found, found, find-removed, Found-after,
}
use kortex_memory.Memories.Queries.{get_by_public_id, by_public_id}
use kortex_memory.Memories.Writes.{soft_delete}
use kortex_memory.Service.Exec.{ok, access_denied, pure, ◌>>=◌}
use kortex_memory.Service.Exec.Laws.{raise_unless-ok, bind-ok}
use kortex_memory.Service.State.{State, Environment}
use kortex_memory.Service.Refusals.{looked_up}
use kortex_memory.Service.Methods.{
  flush, audit, filed, context, resource_of, deletion, carry_out_deletion, delete_found,
  delete_memory,
}

-- one entry more, and the same memories
pub record IsLogged (action : AuditAction) (s s' : State) : Type 0 where
  pub entry : AuditLog
  pub logged : s'.audit ≡ s.audit ++ entry ∷ []
  pub acted : entry.action ≡ action
  pub kept : s'.memories ≡ s.memories

module _ (env : Environment) (p : Principal) where
  filed-IsLogged :
      (o : Option ℕ) (v : Event) (s : State)
      → (filed env p (file_under env.audit_hash o (context env p s) v s.audit) s).0 ≡ ok tt
      → IsLogged v.action s
          (filed env p (file_under env.audit_hash o (context env p s) v s.audit) s).1
  unfolding entry_of
  filed-IsLogged none v s h = absurd cc h
  filed-IsLogged (some org) v s h = record {
    entry = new_entry env.audit_hash (context env p s) v org s.audit;
    logged = refl;
    acted = refl;
    kept = refl;
  }

  pub audit-IsLogged :
      (v : Event) (s : State)
      → (audit env p v s).0 ≡ ok tt
      → IsLogged v.action s (audit env p v s).1
  unfolding audit append
  audit-IsLogged v s h = filed-IsLogged (effective_org v.org_id (some p.org_id)) v s h

  -- the state after the deletion of a row that was found
  carried_out :
      (m : Memory) (s : State)
      → (carry_out_deletion env p m s).0 ≡ ok true
      → IsLogged AuditAction.memory_deleted
          (flush (soft_delete s.now m) s).1
          (carry_out_deletion env p m s).1
  unfolding ◌>>=◌ flush
  carried_out m s h =
      let s1 : State = (flush (soft_delete s.now m) s).1 in
      let first = bind-ok (audit env p (deletion env p m)) (λ _. pure true) s1 true h in
      subst (IsLogged AuditAction.memory_deleted s1) (sym (ap (λ r. r.1) first.goes_on))
        (audit-IsLogged (deletion env p m) s1 first.returned)

  abbrev pub IsNamed : Memory → Type 0
  IsNamed m = m.public_id ≡ m.id

  hidden :
      (i : ℕ) (t : Table) (m : Memory) (now : ℕ)
      → Found (by_public_id p i) t m
      → IsOrdered 0 t
      → All IsNamed t
      → get_by_public_id p i (replace_row (soft_delete now m) t) ≡ none
  unfolding get_by_public_id soft_delete
  hidden i t m now f o named =
      let rest = All-behind IsNamed f.before m f.after (subst (All IsNamed) f.parts named) in
      let name : m.public_id ≡ i = ground (arith, f.passes) in
      find-removed (by_public_id p i) t m (soft_delete now m) f refl (ground arith) (
        All-map f.after (λ r h. ground (arith, h.0, h.1, name, rest.0))
          (All-both (λ r. m.id < r.id) IsNamed f.after (Found-after (by_public_id p i) t m f o)
            rest.1))

  -- what a deletion that returned True leaves
  pub record IsGone (i : ℕ) (s s' : State) : Type 0 where
    pub unfound : get_by_public_id p i s'.memories ≡ none
    pub size : length s'.memories ≡ length s.memories
    pub entry : AuditLog
    pub logged : s'.audit ≡ s.audit ++ entry ∷ []
    pub acted : entry.action ≡ AuditAction.memory_deleted

  carried_out-IsGone :
      (i : ℕ) (m : Memory) (s : State)
      → IsOrdered 0 s.memories
      → All IsNamed s.memories
      → get_by_public_id p i s.memories ≡ some m
      → (carry_out_deletion env p m s).0 ≡ ok true
      → IsGone i s (carry_out_deletion env p m s).1
  unfolding flush get_by_public_id
  carried_out-IsGone i m s o named e h =
      let l = carried_out m s h in
      let f = found (by_public_id p i) 0 s.memories o e in
      record {
        unfound = ap (λ t. get_by_public_id p i t) l.kept ∙ hidden i s.memories m s.now f o named;
        size = ap (λ t. length t) l.kept ∙ length-replace_row (soft_delete s.now m) s.memories;
        entry = l.entry;
        logged = l.logged;
        acted = l.acted;
      }

  delete_found-IsGone :
      (i : ℕ) (o : Option Memory) (s : State)
      → IsOrdered 0 s.memories
      → All IsNamed s.memories
      → get_by_public_id p i s.memories ≡ o
      → (delete_found env p o s).0 ≡ ok true
      → IsGone i s (delete_found env p o s).1
  delete_found-IsGone i none s o named e h = absurd cc h
  delete_found-IsGone i (some m) s o named e h =
      let allowed =
        raise_unless-ok (can_write p (resource_of m m.sensitivity)) access_denied
          (carry_out_deletion env p m) s true h in
      subst (λ r. IsGone i s r.1) (sym allowed.1)
        (carried_out-IsGone i m s o named e (sym (ap (λ r. r.0) allowed.1) ∙ h))

  -- If the service's `delete` returns True, in a state whose rows stand in the order of their ids and
  -- carry their own public ids, then nothing is found under the public id any more, no row has left the
  -- table, and exactly one entry was added to the audit log, which records a deletion.
  pub delete_memory-IsGone :
      (i : ℕ) (s : State)
      → IsOrdered 0 s.memories
      → All IsNamed s.memories
      → (delete_memory env p i s).0 ≡ ok true
      → IsGone i s (delete_memory env p i s).1
  unfolding delete_memory
  delete_memory-IsGone i s o named h =
      let e = looked_up env p i (delete_found env p) s true h in
      subst (λ r. IsGone i s r.1) (sym e)
        (delete_found-IsGone i (get_by_public_id p i s.memories) s o named refl
          (sym (ap (λ r. r.0) e) ∙ h))
