-- ===== src/Metrics/Ingested/Whole.antt =====
-- The whole ingest.
use pyntara.Shared.{
  ℕ, ◌+◌, ◌≡◌, ◌≢◌, refl, sym, ap, subst, ◌∙◌, ◌⊎◌, inl, inr, Bool, true, false, Option, none, some,
  List, [], ◌∷◌, ==-cases, ==-differ, nat_eq, list_eq,
}
use mathlib.Core.Option.{some-injective, none-ne-some}
use pyntara.Text.{Text, starts_with}
use pyntara.Effects.{Answer, ok, raised}
use pyntara.Metrics.Store.{Directory, spool, temp, main_outbox, File, Store, at}
use pyntara.Metrics.Machine.{
  querying, Calls, State, Action, pure, attempt, tell, ◌>>=◌, file_of, unlink, query, mkdir,
  iterdir,
}
use pyntara.Metrics.Rule.{
  Holds, Answers, perform-Holds, perform-accepted, pure-Holds, observe-Holds, ask-Holds, tell-Holds,
  bind-Holds, try-Holds, if-Holds,
}
use pyntara.Metrics.Ingest.{
  reject_reason, failed_publication, publish_entry, remove_rejected, ingest_entry, ingest_all,
  ensure_dirs, ingest_present, ingest_spool, spool_temp_prefix,
}
use pyntara.Metrics.Ingested.{
  Stays, Stays-refl, IsPublished, IsSafe, IsSound, IsSound-Leaves, unbind_temp-Leaves,
  IsSound-unbind,
}
use pyntara.Metrics.Ingested.Published.{publish_copy-Sound}

module _ {W : Type 0} (calls : Calls W) (name queue_name : Text) (f : File) (held : Option File)
    (answered : (w : W) → (calls.refusal (querying spool name) w).0 ≡ none) where
  abbrev Sound : Store → Type 0
  Sound = IsSound name queue_name f held

  abbrev Keeps : {A : Type 0} → Action W A → Type 0
  Keeps m = (s : State W) → Sound s.store → Holds (λ _. Sound) Sound (m s)

  bind-Keeps :
      {A B : Type 0} (m : Action W A) (k : A → Action W B)
      → Keeps m
      → ((a : A) → Keeps (k a))
      → Keeps (m >>= k)
  bind-Keeps m k h l s sound =
      bind-Holds (λ _. Sound) (λ _. Sound) Sound m k s (h s sound) (λ a s' sound'. l a s' sound')

  try-Keeps :
      {A B : Type 0} (m : Action W A) (k : Answer A → Action W B)
      → Keeps m
      → ((answer : Answer A) → Keeps (k answer))
      → Keeps (attempt m >>= k)
  try-Keeps m k h l s sound =
      try-Holds (λ _. Sound) Sound (λ _. Sound) Sound m k s (h s sound)
        (λ a s' sound'. l (ok a) s' sound') (λ text s' sound'. l (raised text) s' sound')

  pure-Keeps : {A : Type 0} (a : A) → Keeps (pure a)
  pure-Keeps a s sound = pure-Holds _ _ a s sound

  told :
      {A : Type 0} (text : Text) (priority : Option ℕ) (a : A)
      → Keeps (tell text priority >>= (λ _. pure a))
  told text priority a =
      bind-Keeps _ _ (λ s sound. tell-Holds _ _ text priority s sound) (λ _. pure-Keeps a)

  unlink_temp-Keeps : (temp_name : Text) → Keeps (unlink calls temp temp_name)
  unfolding unlink
  unlink_temp-Keeps temp_name s sound = perform-Holds _ _ calls _ _ s sound (
      IsSound-Leaves name queue_name f held s.store _
        (unbind_temp-Leaves name queue_name f held temp_name s.store) sound)

  failed_publication-Keeps :
      (entry : Text) (answer : Answer Bool) → Keeps (failed_publication calls entry answer)
  failed_publication-Keeps entry (ok published) = pure-Keeps published
  failed_publication-Keeps entry (raised text) = told _ _ false

  publish_entry-Keeps : (entry : Text) → Keeps (publish_entry calls entry)
  unfolding publish_entry
  publish_entry-Keeps entry =
      bind-Keeps _ _ (λ s sound. ask-Holds _ _ _ s (λ _. sound))
        (λ token.
          try-Keeps _ _ (λ s sound. publish_copy-Sound calls name queue_name f held entry _ s sound)
            (λ answer.
              bind-Keeps _ _ (failed_publication-Keeps entry answer)
                (λ published. bind-Keeps _ _ (unlink_temp-Keeps _) (λ _. pure-Keeps published))))

  -- What may be removed from the spool: another entry, or one that is rejected or not there.
  abbrev MayGo : Text → Store → Type 0
  MayGo entry store =
      Sound store × (name ≡ entry → at store spool name ≡ some f → reject_reason (ok f) ≢ none)

  removable :
      (entry : Text) (store : Store)
      → MayGo entry store
      → name ≡ entry
      → IsPublished name f store ⊎ (reject_reason (ok f) ≢ none)
  removable entry store ((inr (inl p), o), h) e = inl p
  removable entry store ((inr (inr r), o), h) e = inr r
  removable entry store ((inl at_f, o), h) e = inr (h e at_f)

  unlink_spool :
      (entry : Text) (s : State W)
      → MayGo entry s.store
      → Holds (λ _. Sound) Sound (unlink calls spool entry s)
  unfolding unlink
  unlink_spool entry s h =
      perform-Holds _ _ calls _ _ s h.0
        (IsSound-unbind name queue_name f held entry s.store (removable entry s.store h) h.0)

  remove_rejected-Sound :
      (entry : Text) (s : State W)
      → MayGo entry s.store
      → Holds (λ _. Sound) Sound (remove_rejected calls entry s)
  unfolding remove_rejected
  remove_rejected-Sound entry s h =
      try-Holds (λ _. Sound) Sound (λ _. Sound) Sound _ _ s (unlink_spool entry s h)
        (λ _ s' sound. pure-Keeps 0 s' sound) (λ text s' sound. told _ _ 1 s' sound)

  -- The answer of stat: the entry as it is, or that it is not there.
  abbrev Stated : Text → Answer File → Store → Type 0
  Stated entry (ok e) store = Sound store × (at store spool entry ≡ some e)
  Stated entry (raised text) store = Sound store × (name ≡ entry → at store spool name ≢ some f)

  query-Stated :
      (entry : Text) (s : State W)
      → Sound s.store
      → Holds
          (λ e. Stated entry (ok e))
          (λ store. Stated entry (raised []) store)
          (query calls spool entry s)
  unfolding query
  query-Stated entry s sound = elim (==-cases name entry) [
    | inl e ↦
        perform-accepted _ _ calls _ _ s
          (subst (λ x. (calls.refusal (querying spool x) s.world).0 ≡ none) e (answered s.world))
          (sources (at s.store spool entry) refl)
    | inr d ↦
        perform-Holds _ _ calls _ _ s (sound, λ e. absurd (==-differ e d))
          (sources (at s.store spool entry) refl)
  ]
    where
      sources :
          (found : Option File)
          → at s.store spool entry ≡ found
          → Answers
              (λ e. Stated entry (ok e))
              (λ store. Stated entry (raised []) store)
              s.store
              (file_of calls spool entry (λ e. ok (e, s.store)) found)
      sources none none_there =
          (sound, λ e k. none-ne-some f (sym none_there ∙ ap (at s.store spool) (sym e) ∙ k))
      sources (some e) at_e = (sound, at_e)

  -- An entry with a reason may be removed.
  rejected-MayGo :
      (entry : Text) (answer : Answer File) (store : Store) (reason : Text)
      → reject_reason answer ≡ some reason
      → Stated entry answer store
      → MayGo entry store
  rejected-MayGo entry (raised text) store reason r (sound, gone) =
      (sound, λ e at_f. absurd (gone e at_f))
  rejected-MayGo entry (ok e) store reason r (sound, at_e) = (
    sound,
    λ same at_f k.
        let e≡f : e ≡ f = some-injective e f (sym at_e ∙ ap (at store spool) (sym same) ∙ at_f) in
        none-ne-some reason (sym k ∙ sym (ap (λ x. reject_reason (ok x)) e≡f) ∙ r),
  )

  Stated-Sound :
      (entry : Text) (answer : Answer File) (store : Store)
      → Stated entry answer store
      → Sound store
  Stated-Sound entry (ok e) store h = h.0
  Stated-Sound entry (raised text) store h = h.0

  ingest_entry-Sound :
      (entry : Text) (answer : Answer File) (reason : Option Text) (s : State W)
      → reject_reason answer ≡ reason
      → Stated entry answer s.store
      → Holds (λ _. Sound) Sound (ingest_entry calls entry reason s)
  unfolding ingest_entry
  ingest_entry-Sound entry answer none s r h =
      bind-Keeps _ _ (publish_entry-Keeps entry) (λ published. pure-Keeps _) s
        (Stated-Sound entry answer s.store h)
  ingest_entry-Sound entry answer (some reason) s r h =
      bind-Holds (λ _. MayGo entry) (λ _. Sound) Sound _ _ s
        (tell-Holds _ _ _ _ s (rejected-MayGo entry answer s.store reason r h))
        (λ _ s' h'. remove_rejected-Sound entry s' h')

  ingest_all-Keeps :
      (left_behind : ℕ) (entries : List Text) → Keeps (ingest_all calls left_behind entries)
  unfolding ingest_all
  ingest_all-Keeps left_behind [] s sound = pure-Keeps left_behind s sound
  ingest_all-Keeps left_behind (entry ∷ entries) s sound =
      if-Holds _ _ (starts_with spool_temp_prefix entry) _ _ s
        (ingest_all-Keeps left_behind entries s sound)
        (try-Holds _ _ _ _ _ _ s (query-Stated entry s sound)
          (λ e s' h.
            bind-Holds (λ _. Sound) _ _ _ _ s' (ingest_entry-Sound entry (ok e) _ s' refl h)
              (λ left s'' k. ingest_all-Keeps (left_behind + left) entries s'' k))
          (λ text s' h.
            bind-Holds (λ _. Sound) _ _ _ _ s' (ingest_entry-Sound entry (raised text) _ s' refl h)
              (λ left s'' k. ingest_all-Keeps (left_behind + left) entries s'' k)))

  ensure_dirs-Keeps : (directories : List Directory) → Keeps (ensure_dirs calls directories)
  unfolding ensure_dirs mkdir
  ensure_dirs-Keeps [] = pure-Keeps tt
  ensure_dirs-Keeps (d ∷ directories) =
      bind-Keeps _ _ (λ s sound. perform-Holds _ _ calls _ _ s sound sound)
        (λ _. ensure_dirs-Keeps directories)

  ingest_present-Keeps : (is_there : Bool) → Keeps (ingest_present calls is_there)
  unfolding ingest_present iterdir
  ingest_present-Keeps false = told _ _ 0
  ingest_present-Keeps true =
      bind-Keeps _ _ (λ s sound. perform-Holds _ _ calls _ _ s sound sound)
        (λ found. ingest_all-Keeps 0 _)

  ingest_spool-Keeps : Keeps (ingest_spool calls)
  unfolding ingest_spool
  ingest_spool-Keeps =
      bind-Keeps _ _
        (bind-Keeps _ _ (ensure_dirs-Keeps _) (λ _ s sound. observe-Holds _ _ _ s (λ _. sound)))
        ingest_present-Keeps

ends :
    {W A : Type 0} (P : Store → Type 0) (r : Answer A × State W) → Holds (λ _. P) P r → P r.1.store
unfolding Holds
ends P (ok a, s) h = h
ends P (raised text, s) h = h

-- A run of the ingest never loses a file of the spool, even when it raises, whatever other calls are
-- refused: when the system answers every stat of the name, then a file that stood under it in the
-- spool is there still, or stands in the outbox under the name with a suffix, with its content
-- and the time that its st_mtime gives back in nanoseconds, or is one that the ingest rejects. A
-- file that stood under any name of the outbox stands there still.
pub ingest_spool-Safe :
    {W : Type 0} (calls : Calls W) (s : State W) (name queue_name : Text) (f : File)
    → ((w : W) → (calls.refusal (querying spool name) w).0 ≡ none)
    → at s.store spool name ≡ some f
    → IsSafe name f (ingest_spool calls s).1.store
      × Stays
          (at s.store main_outbox queue_name)
          (at (ingest_spool calls s).1.store main_outbox queue_name)
ingest_spool-Safe calls s name queue_name f answered at_f =
    let held = at s.store main_outbox queue_name in
    ends (IsSound name queue_name f held) (ingest_spool calls s)
      (ingest_spool-Keeps calls name queue_name f held answered s (inl at_f, Stays-refl held))
