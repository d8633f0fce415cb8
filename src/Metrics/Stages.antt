-- ===== src/Metrics/Stages.antt =====
-- What the queue promises about one name: the file under it goes from the outbox into the channel
-- and from there into the archive, and is never without a place.
use pyntara.Shared.{◌≡◌, refl, ap, ◌⊎◌, inl, inr, ◌↔◌, Option, none, some}
use pyntara.Metrics.Store.{File, Store, main_outbox, google_script, main_sent, at}
use pyntara.Text.{Text}

-- The files under a name in main_outbox, in google_script and in main_sent.
pub data View : Type 0 where
  seen : (waiting queued archived : Option File) → View

abbrev pub view : Store → Text → View
view store name =
    seen (at store main_outbox name) (at store google_script name) (at store main_sent name)

abbrev pub archive_of : View → Option File
archive_of (seen o g t) = t

abbrev pub waiting_of : View → Option File
waiting_of (seen o g t) = o

infix 40 ◌⟶◌ ◌⟶*◌
pub data ◌⟶◌ : View → View → Type 0 where
  linked : {f : File} {t : Option File} → seen (some f) none t ⟶ seen (some f) (some f) t
  released : {f : File} {t : Option File} → seen (some f) (some f) t ⟶ seen none (some f) t
  archived : {f : File} {o t : Option File} → seen o (some f) t ⟶ seen o none (some f)

pub data ◌⟶*◌ : View → View → Type 0 where
  here : {v : View} → v ⟶* v
  then : {u v w : View} → u ⟶ v → v ⟶* w → u ⟶* w

pub ⟶*-trans : {u v w : View} → u ⟶* v → v ⟶* w → u ⟶* w
⟶*-trans here k = k
⟶*-trans (then s h) k = then s (⟶*-trans h k)

-- No step fills the outbox.
pub ⟶*-no_waiting : {v w : View} → v ⟶* w → waiting_of v ≡ none → waiting_of w ≡ none
⟶*-no_waiting here e = e
⟶*-no_waiting (then linked h) e = absurd (cc)
⟶*-no_waiting (then released h) e = absurd (cc)
⟶*-no_waiting (then archived h) e = ⟶*-no_waiting h e

-- The file is in one of the three directories.
abbrev pub IsHeld : File → View → Type 0
IsHeld f (seen o g t) = (o ≡ some f) ⊎ (g ≡ some f) ⊎ (t ≡ some f)

-- The name stands for one file, wherever it stands.
abbrev pub IsAgreed : View → Type 0
IsAgreed v = (f g : File) → IsHeld f v → IsHeld g v → f ≡ g

-- How far a file has come.
abbrev pub IsPast : File → View → Type 0
IsPast f (seen o g t) = (g ≡ some f) ⊎ (t ≡ some f)

abbrev pub IsArchived : File → View → Type 0
IsArchived f (seen o g t) = t ≡ some f

IsHeld-back : {v w : View} (f : File) → v ⟶ w → IsHeld f w → IsHeld f v
IsHeld-back f linked (inl e) = inl e
IsHeld-back f linked (inr (inl e)) = inl e
IsHeld-back f linked (inr (inr e)) = inr (inr e)
IsHeld-back f released (inl e) = absurd (cc)
IsHeld-back f released (inr h) = inr h
IsHeld-back f archived (inl e) = inl e
IsHeld-back f archived (inr (inl e)) = absurd (cc)
IsHeld-back f archived (inr (inr e)) = inr (inl e)

IsPast-on : {v w : View} (f : File) → v ⟶ w → IsAgreed v → IsPast f v → IsPast f w
IsPast-on f linked a (inl e) = absurd (cc)
IsPast-on f linked a (inr e) = inr e
IsPast-on f released a h = h
IsPast-on f archived a (inl e) = inr e
IsPast-on f archived a (inr e) = inr (ap some (a _ f (inr (inl refl)) (inr (inr e))))

IsArchived-on : {v w : View} (f : File) → v ⟶ w → IsAgreed v → IsArchived f v → IsArchived f w
IsArchived-on f linked a h = h
IsArchived-on f released a h = h
IsArchived-on f archived a h = ap some (a _ f (inr (inl refl)) (inr (inr h)))

IsHeld-on : {v w : View} (f : File) → v ⟶ w → IsAgreed v → IsHeld f v → IsHeld f w
IsHeld-on f linked a (inl e) = inl e
IsHeld-on f linked a (inr h) = inr (IsPast-on f linked a h)
IsHeld-on f released a (inl e) = inr (inl e)
IsHeld-on f released a (inr h) = inr h
IsHeld-on f archived a (inl e) = inl e
IsHeld-on f archived a (inr h) = inr (IsPast-on f archived a h)

IsAgreed-on : {v w : View} → v ⟶ w → IsAgreed v → IsAgreed w
IsAgreed-on s a f g h k = a f g (IsHeld-back f s h) (IsHeld-back g s k)

-- Along every number of steps the same files are held, and none goes back.
pub record IsKept (v w : View) : Type 0 where
  pub agreed : IsAgreed w
  pub keeps : (f : File) → IsHeld f v ↔ IsHeld f w
  pub past : (f : File) → IsPast f v → IsPast f w
  pub archive : (f : File) → IsArchived f v → IsArchived f w

pub ⟶*-IsKept : {v w : View} → v ⟶* w → IsAgreed v → IsKept v w
⟶*-IsKept here a = record {
  agreed = a;
  keeps = λ f. (λ h. h, λ h. h);
  past = λ f h. h;
  archive = λ f h. h;
}
⟶*-IsKept (then s t) a =
    let rest = ⟶*-IsKept t (IsAgreed-on s a) in
    record {
      agreed = rest.agreed;
      keeps = λ f.
          (λ h. (rest.keeps f).0 (IsHeld-on f s a h), λ h. IsHeld-back f s ((rest.keeps f).1 h));
      past = λ f h. rest.past f (IsPast-on f s a h);
      archive = λ f h. rest.archive f (IsArchived-on f s a h);
    }
