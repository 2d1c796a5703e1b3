-- ===== src/Logger/Cached.antt =====
-- What the map of logger/main.go keeps.
use Prim.Native.String.{String}
use text.Mathlib.Text.{◌==◌ as str_eq}
use text.Mathlib.TextEquality.{eq_iff}
use fuse_video_streamer.Base.{
  ℕ, ◌≡◌, ◌≢◌, refl, ap, ◌∙◌, sym, inl, inr, true, Option, none, some, [], ◌∷◌, Bool-cases,
}
use fuse_video_streamer.Go.{Outcome, ok, err, panics}
use fuse_video_streamer.Logger.{
  Os, Loggers, find, delete, Logger, create_logger, keep_logger, get_by, get_logger, file_name_of,
  named, new_logger, close,
}

find-delete :
    (loggers : Loggers) (gone name : String)
    → name ≢ gone
    → find (delete loggers gone) name ≡ find loggers name
unfolding delete
find-delete [] gone name ne = refl
find-delete ((other, l) ∷ rest) gone name ne = elim (Bool-cases (str_eq other gone)) [
  | inl e ↦ elim (Bool-cases (str_eq other name)) [
    | inl q ↦ absurd (ne (sym ((eq_iff other name).0 q) ∙ (eq_iff other gone).0 e))
    | inr q ↦ rw (e, q) (find-delete rest gone name ne)
  ]
  | inr e ↦ elim (Bool-cases (str_eq other name)) [
    | inl q ↦ rw (e, q) refl
    | inr q ↦ rw (e, q) (find-delete rest gone name ne)
  ]
]

module _ {X : Type 0} (os : Os X) where
  -- The logger that the call gave is in the map under the name.
  abbrev Kept : String → (Outcome ℕ × Loggers) × X → Type 0
  Kept name ((ok k, loggers), x) = find loggers name ≡ some k
  Kept name _ = Unit {0}

  keep_logger-Kept :
      (name : String) (loggers : Loggers) (r : Outcome ℕ × X)
      → Kept name (keep_logger os name loggers r)
  keep_logger-Kept name loggers (ok k, x) =
      let same : str_eq name name ≡ true = (eq_iff name name).1 refl in rw same refl
  keep_logger-Kept name loggers (err e, x) = tt
  keep_logger-Kept name loggers (panics p, x) = tt

  get_by-Kept :
      (name : String) (loggers : Loggers) (x : X) (o : Option ℕ)
      → find loggers name ≡ o
      → Kept name (get_by os name loggers x o)
  get_by-Kept name loggers x (some k) e = e
  get_by-Kept name loggers x none e = keep_logger-Kept name loggers (create_logger os name x)

  named-Kept :
      (service : String) (i : Logger) (loggers : Loggers) (x : X) (r : (Outcome ℕ × Loggers) × X)
      → Kept (file_name_of os service) r
      → named os service r ≡ ((ok i, loggers), x)
      → (find loggers (file_name_of os service) ≡ some i.logger) × (i.service ≡ service)
  named-Kept service i loggers x ((ok k, kept), y) h e =
      let made : record { logger = k; service = service } ≡ i = cc in
      let map : kept ≡ loggers = ap (λ r. r.0.1) e in
      (
        ap (λ l. find l (file_name_of os service)) (sym map)
            ∙ h
            ∙ ap (λ (j : Logger). some j.logger) made,
        ap (λ (j : Logger). j.service) (sym made),
      )
  named-Kept service i loggers x ((err q, kept), y) h e = absurd (cc)
  named-Kept service i loggers x ((panics p, kept), y) h e = absurd (cc)

  -- The logger of a NewLogger that succeeded is in the map.
  pub new_logger-Kept :
      (service : String) (loggers loggers' : Loggers) (x x' : X) (i : Logger)
      → new_logger os service loggers x ≡ ((ok i, loggers'), x')
      → (find loggers' (file_name_of os service) ≡ some i.logger) × (i.service ≡ service)
  unfolding new_logger get_logger
  new_logger-Kept service loggers loggers' x x' i e =
      named-Kept service i loggers' x' (get_logger os (file_name_of os service) loggers x)
        (get_by-Kept (file_name_of os service) loggers x (find loggers (file_name_of os service))
          refl)
        e

  -- NewLogger of a service whose logger is in the map.
  pub cached :
      (service : String) (loggers : Loggers) (x : X) (l : ℕ)
      → find loggers (file_name_of os service) ≡ some l
      → new_logger os service loggers x
        ≡ ((ok (record { logger = l; service = service }), loggers), x)
  unfolding new_logger get_logger
  cached service loggers x l e =
      ap (λ o. named os service (get_by os (file_name_of os service) loggers x o)) e

  -- If the key of a service in the map of the loggers is not the name of the service itself, then
  -- behind a NewLogger that succeeded and a Close of its logger, NewLogger of the service gives
  -- the same logger again, and opens no file.
  pub close_keeps_logger :
      (service : String) (loggers loggers' : Loggers) (x x' later : X) (i : Logger)
      → new_logger os service loggers x ≡ ((ok i, loggers'), x')
      → file_name_of os service ≢ service
      → new_logger os service (close i loggers') later ≡ ((ok i, close i loggers'), later)
  unfolding new_logger get_logger close
  close_keeps_logger service loggers loggers' x x' later i e ne =
      let (held, same) = new_logger-Kept service loggers loggers' x x' i e in
      let still : find (delete loggers' i.service) (file_name_of os service) ≡ some i.logger =
        find-delete loggers' i.service (file_name_of os service) (λ q. ne (q ∙ same)) ∙ held in
      cached service (delete loggers' i.service) later i.logger still
      ∙ ap
          (λ s.
            ((ok (record { logger = i.logger; service = s }), delete loggers' i.service), later))
          (sym same)
