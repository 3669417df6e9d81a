-- ===== src/Tool/Editing/Laws.antt =====
-- What `str_replace` of memory_tool.py leaves in the store.
use kortex_memory.Prelude.{
  ℕ, zero, suc, ◌≡◌, refl, sym, ◌∙◌, ap, subst, Bool, true, false, Option, none, some, [], ◌∷◌,
  Text, codes, if◌then◌else◌,
}
use kortex_memory.Access.{Principal, can_write}
use kortex_memory.Memories.{Memory}
use kortex_memory.Memories.Rows.{found, find-replaced}
use kortex_memory.Memories.Queries.{get_by_public_id, find_by_metadata, by_metadata}
use kortex_memory.Memories.Writes.{Changes, update_fields}
use kortex_memory.Service.Exec.{Exec, ok, access_denied, pure, ◌>>=◌, ◌>>◌}
use kortex_memory.Service.Exec.Laws.{raise_unless-ok, bind-ok, ok-injective}
use kortex_memory.Service.State.{State, Environment}
use kortex_memory.Service.Refusals.{looked_up}
use kortex_memory.Service.Changing.{IsChanged, update_fields-IsChanged, with_row}
use kortex_memory.Service.Methods.{update, update_found, flush, reclassify, resource_of}
use kortex_memory.Service.Tenancy.Steps.{IsTidy}
use kortex_memory.Tool.{Command, arg, path_key}
use kortex_memory.Tool.Texts.{count_from, replace_first}
use kortex_memory.Tool.Texts.Replacing.{IsReplaced, replace_first-IsReplaced}
use kortex_memory.Tool.Paths.{normalise_path}
use kortex_memory.Tool.Replies.{Reply, passed, rejected, edited_to, not_editable, held_for_editing}
use kortex_memory.Tool.Files.{
  Backend, unchanged, text_of, or_blank, is_pending, file, editable, and_then, require_file,
}
use kortex_memory.Tool.Editing.{old_of, set_body, replace_counted, str_replace}

abbrev body_change : Text → Changes
body_change body = record unchanged { body = some body }

module _ (env : Environment) (p : Principal) where
  update-row :
      (m : Memory) (body : Text) (s : State) (o : Option Memory)
      → get_by_public_id p m.public_id s.memories ≡ some m
      → (update env p m.public_id (body_change body) s).0 ≡ ok o
      → (update env p m.public_id (body_change body) s).1
        ≡ with_row (update_fields (body_change body) m) s
  unfolding update flush ◌>>=◌
  update-row m body s o there h =
      let c : Changes = body_change body in
      let run = looked_up env p m.public_id (update_found env p c) s o h in
      let at_row : update env p m.public_id c s ≡ update_found env p c (some m) s =
        run ∙ ap (λ q. update_found env p c q s) there in
      let allowed =
        raise_unless-ok (can_write p (resource_of m m.sensitivity)) access_denied
          (reclassify env p c.sensitivity m
            >> (flush (update_fields c m) >> pure (some (update_fields c m))))
          s o (sym (ap (λ q. q.0) at_row) ∙ h) in
      ap (λ q. q.1) (at_row ∙ allowed.1)

-- the file at a path holds a new body, and the row is otherwise the old one
pub record IsRewritten (p : Principal) (b : Backend) (path : Text) (m : Memory) (body : Text)
    (s' : State) : Type 0 where
  pub row : Memory
  pub there : file p b path s' ≡ some row
  pub changed : IsChanged (body_change body) m row

module _ (env : Environment) (p : Principal) (b : Backend) where
  file-with_row :
      (path body : Text) (m : Memory) (s : State)
      → IsTidy s
      → file p b path s ≡ some m
      → IsRewritten p b path m body (with_row (update_fields (body_change body) m) s)
  unfolding file find_by_metadata update_fields
  file-with_row path body m s tidy h =
      let test : Memory → Bool = by_metadata p b.scope_type b.scope_id path_key path in
      let f = found test 0 s.memories tidy.ordered h in
      record {
        row = update_fields (body_change body) m;
        changed = update_fields-IsChanged (body_change body) m;
        there =
            find-replaced test s.memories m (update_fields (body_change body) m) f refl f.passes;
      }

  -- an edit that returned
  set_body-IsRewritten :
      (path : Text) (m : Memory) (body : Text) (r r' : Reply) (s : State)
      → IsTidy s
      → file p b path s ≡ some m
      → get_by_public_id p m.public_id s.memories ≡ some m
      → (set_body env p b m body r s).0 ≡ ok r'
      → (r ≡ r') × IsRewritten p b path m body (set_body env p b m body r s).1
  set_body-IsRewritten path m body r r' s tidy h there run =
      let first = bind-ok (update env p m.public_id (body_change body)) (λ _. pure r) s r' run in
      let after = update-row env p m body s first.value there first.returned in
      let whole : set_body env p b m body r s
          ≡ (ok r, with_row (update_fields (body_change body) m) s) =
        first.goes_on ∙ ap (λ q. (ok r, q)) after in
      (
        ok-injective (sym (ap (λ q. q.0) whole) ∙ run),
        subst (λ q. IsRewritten p b path m body q.1) (sym whole)
            (file-with_row path body m s tidy h),
      )

-- a `str_replace` that was carried out, for an `old_str` that was given
pub record IsEdited (p : Principal) (b : Backend) (path : Text) (o : Option Text) (new : Text)
    (m : Memory) (body : Text) (s' : State) : Type 0 where
  pub old : Text
  pub given : o ≡ some old
  pub replaced : IsReplaced old new m.body body
  pub reviewed : is_pending m ≡ false
  pub rewritten : IsRewritten p b path m body s'

module _ (env : Environment) (p : Principal) (b : Backend) where
  counted-IsEdited :
      (path : Text) (x : ℕ) (xs new body : Text) (m : Memory) (n : ℕ) (s : State)
      → IsTidy s
      → file p b path s ≡ some m
      → get_by_public_id p m.public_id s.memories ≡ some m
      → is_pending m ≡ false
      → count_from 0 (x ∷ xs) m.body ≡ n
      → (replace_counted env p b path (x ∷ xs) new m n s).0 ≡ ok (edited_to body)
      → IsEdited p b path
          (some (x ∷ xs))
          new
          m
          body
          (replace_counted env p b path (x ∷ xs) new m n s).1
  counted-IsEdited path x xs new body m zero s tidy h there free count run = absurd cc run
  counted-IsEdited path x xs new body m (suc (suc n)) s tidy h there free count run = absurd cc run
  counted-IsEdited path x xs new body m (suc zero) s tidy h there free count run =
      let text : Text = replace_first (x ∷ xs) new m.body in
      let r =
        set_body-IsRewritten env p b path m text (edited_to text) (edited_to body) s tidy h there
          run in
      let same : text ≡ body = cc r.0 in
      record {
        old = x ∷ xs;
        given = refl;
        replaced =
            subst (λ t. IsReplaced (x ∷ xs) new m.body t) same
              (replace_first-IsReplaced x xs new m.body count);
        reviewed = free;
        rewritten =
            subst (λ t. IsRewritten p b path m t (set_body env p b m text (edited_to text) s).1)
              same r.1;
      }

  old-IsEdited :
      (path new body : Text) (o : Option Text) (m : Memory) (s : State)
      → IsTidy s
      → file p b path s ≡ some m
      → get_by_public_id p m.public_id s.memories ≡ some m
      → is_pending m ≡ false
      → let run =
          and_then
            (old_of env p b o)
            (λ old. replace_counted env p b path old new m (count_from 0 old m.body)) in
        (run s).0 ≡ ok (edited_to body) → IsEdited p b path o new m body (run s).1
  old-IsEdited path new body none m s tidy h there free run = absurd cc run
  old-IsEdited path new body (some []) m s tidy h there free run = absurd cc run
  old-IsEdited path new body (some (x ∷ xs)) m s tidy h there free run =
      counted-IsEdited path x xs new body m (count_from 0 (x ∷ xs) m.body) s tidy h there free refl
        run

  editable-IsEdited :
      (path new body : Text) (o : Option Text) (m : Memory) (s : State) (held : Bool)
      → IsTidy s
      → file p b path s ≡ some m
      → get_by_public_id p m.public_id s.memories ≡ some m
      → is_pending m ≡ held
      → let run =
          and_then (if held then rejected (held_for_editing path) else passed m) (λ (m : Memory).
            and_then
              (old_of env p b o)
              (λ old. replace_counted env p b path old new m (count_from 0 old m.body))) in
        (run s).0 ≡ ok (edited_to body) → IsEdited p b path o new m body (run s).1
  editable-IsEdited path new body o m s true tidy h there free run = absurd cc run
  editable-IsEdited path new body o m s false tidy h there free run =
      old-IsEdited path new body o m s tidy h there free run

  -- If `str_replace` answers that it has edited the file at an accepted path, then the file did not wait
  -- for a review; its body is the old one with the command's `new_str` in the place of its `old_str` at one
  -- spot, which occurs neither before nor behind it; the answer shows the new body; and the path still leads to the same row, which differs
  -- in the body and in the embedding that a new body drops. The ids of the memories grow along the table
  -- and the public id of the row leads to it.
  pub str_replace-IsEdited :
      (c : Command) (path body : Text) (m : Memory) (s : State)
      → IsTidy s
      → normalise_path (arg (codes "path") c) ≡ passed path
      → file p b path s ≡ some m
      → get_by_public_id p m.public_id s.memories ≡ some m
      → (str_replace env p b c s).0 ≡ ok (edited_to body)
      → IsEdited p b path
          (text_of (arg (codes "old_str") c))
          (or_blank (text_of (arg (codes "new_str") c)))
          m
          body
          (str_replace env p b c s).1
  unfolding str_replace ◌>>=◌
  str_replace-IsEdited c path body m s tidy accepted h there run =
      let new : Text = or_blank (text_of (arg (codes "new_str") c)) in
      let o : Option Text = text_of (arg (codes "old_str") c) in
      let replace : Memory → Exec State Reply = λ m.
        and_then (old_of env p b o)
          (λ old. replace_counted env p b path old new m (count_from 0 old m.body)) in
      let at : Text → Exec State Reply = λ q. require_file p b q (not_editable q) (λ m.
        and_then (old_of env p b o)
          (λ old. replace_counted env p b q old new m (count_from 0 old m.body))) in
      let whole : str_replace env p b c s
          ≡ and_then (editable p b path (not_editable path) (some m)) replace s =
        ap (λ q. and_then q at s) accepted
        ∙ ap (λ q. and_then (editable p b path (not_editable path) q) replace s) h in
      subst (λ q. IsEdited p b path o new m body q.1) (sym whole)
        (editable-IsEdited path new body o m s (is_pending m) tidy h there refl
          (sym (ap (λ q. q.0) whole) ∙ run))
