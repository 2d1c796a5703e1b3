-- ===== src/Fuse/Factories/Known.antt =====
-- Loggers that are in the map of logger/main.go stay there, and a call of NewLogger that succeeded has
-- put its own there.
use Prim.Native.String.{String}
use text.Mathlib.Text.{◌==◌ as str_eq}
use fuse_video_streamer.Base.{ℕ, ◌≡◌, refl, inl, inr, false, Option, none, some, ◌∷◌, Bool-cases}
use fuse_video_streamer.Go.{Outcome, ok, err, panics}
use fuse_video_streamer.Client.{Client}
use fuse_video_streamer.Logger.{
  Os, Loggers, Logger, find, create_logger, keep_logger, get_by, get_logger, file_name_of, named,
  new_logger,
}
use fuse_video_streamer.Logger.Cached.{new_logger-Kept}
use fuse_video_streamer.Fuse.Directory.{Service, Tree}
use fuse_video_streamer.Fuse.Directory.Services as Services
use fuse_video_streamer.Fuse.Factories.{
  Making, with_tree, lift, bind, or_panic, log, new_directory_node_service,
  new_streamable_node_service, new_file_node_service, with_services, new_directory,
}

-- There is a logger under the name.
abbrev pub Has : String → Loggers → Type 0
Has name loggers = (l : ℕ) × (find loggers name ≡ some l)

find-front :
    (name other : String) (l : ℕ) (loggers : Loggers)
    → Has name loggers
    → Has name ((other, l) ∷ loggers)
find-front name other l loggers (k, e) = elim (Bool-cases (str_eq other name)) [
  | inl q ↦ (l, rw q refl)
  | inr q ↦ (k, rw q e)
]

module _ {X : Type 0} (os : Os X) where
  abbrev pub loggers_of : {A : Type 0} → (Outcome A × Loggers) × X → Loggers
  loggers_of ((r, loggers), x) = loggers

  keep_logger-Has :
      (name file_name : String) (loggers : Loggers) (r : Outcome ℕ × X)
      → Has name loggers
      → Has name (loggers_of (keep_logger os file_name loggers r))
  keep_logger-Has name file_name loggers (ok l, x) h = find-front name file_name l loggers h
  keep_logger-Has name file_name loggers (err e, x) h = h
  keep_logger-Has name file_name loggers (panics p, x) h = h

  get_by-Has :
      (name file_name : String) (loggers : Loggers) (x : X) (o : Option ℕ)
      → Has name loggers
      → Has name (loggers_of (get_by os file_name loggers x o))
  get_by-Has name file_name loggers x (some l) h = h
  get_by-Has name file_name loggers x none h =
      keep_logger-Has name file_name loggers (create_logger os file_name x) h

  loggers_of-named :
      (service : String) (r : (Outcome ℕ × Loggers) × X)
      → loggers_of (named os service r) ≡ loggers_of r
  loggers_of-named service ((ok l, loggers), x) = refl
  loggers_of-named service ((err e, loggers), x) = refl
  loggers_of-named service ((panics p, loggers), x) = refl

  pub new_logger-Has :
      (name service : String) (loggers : Loggers) (x : X)
      → Has name loggers
      → Has name (loggers_of (new_logger os service loggers x))
  unfolding new_logger get_logger
  new_logger-Has name service loggers x h =
      rw (loggers_of-named service (get_logger os (file_name_of os service) loggers x)) (
        get_by-Has name (file_name_of os service) loggers x (find loggers (file_name_of os service))
          h)

module _ {R X : Type 0} where
  -- The call failed, or this holds of the loggers that it left.
  abbrev pub IfOk : (Loggers → Type 0) → {A : Type 0} → Outcome A × Making R X → Type 0
  IfOk P (ok a, m) = P m.loggers
  IfOk P (err e, m) = Unit {0}
  IfOk P (panics p, m) = Unit {0}

  or_panic-IfOk :
      (P : Loggers → Type 0) {A : Type 0} (r : Outcome A × Making R X)
      → IfOk P r
      → IfOk P (or_panic r)
  or_panic-IfOk P (ok a, m) h = h
  or_panic-IfOk P (err e, m) h = tt
  or_panic-IfOk P (panics p, m) h = tt

  bind-IfOk :
      (P Q : Loggers → Type 0) {A B : Type 0} (r : Outcome A × Making R X)
      (f : A → Making R X → Outcome B × Making R X)
      → IfOk P r
      → ((a : A) (m : Making R X) → P m.loggers → IfOk Q (f a m))
      → IfOk Q (bind r f)
  bind-IfOk P Q (ok a, m) f h next = next a m h
  bind-IfOk P Q (err e, m) f h next = tt
  bind-IfOk P Q (panics p, m) f h next = tt

  lifted-IfOk :
      (P : Loggers → Type 0) {A : Type 0} (q : Outcome A × Tree R) (m : Making R X)
      → P m.loggers
      → IfOk P (q.0, with_tree m q.1)
  lifted-IfOk P (ok a, t) m h = h
  lifted-IfOk P (err e, t) m h = tt
  lifted-IfOk P (panics p, t) m h = tt

module _ {X : Type 0} (os : Os X) where
  abbrev pub Knows : String → Loggers → Type 0
  Knows service loggers = Has (file_name_of os service) loggers

  -- The loggers that the New of a node needs.
  abbrev pub Ready : Loggers → Type 0
  Ready loggers = Knows "Root Node" loggers × Knows "File Node Service" loggers

module _ {R X : Type 0} (os : Os X) where
  logged-IfOk :
      (service : String) (m : Making R X) (q : (Outcome Logger × Loggers) × X)
      → new_logger os service m.loggers m.disk ≡ q
      → IfOk (Knows os service) (q.0.0, record m { loggers = q.0.1; disk = q.1 })
  logged-IfOk service m ((ok i, loggers), x) e =
      (i.logger, (new_logger-Kept os service m.loggers loggers m.disk x i e).0)
  logged-IfOk service m ((err q, loggers), x) e = tt
  logged-IfOk service m ((panics p, loggers), x) e = tt

  log-IfOk : (service : String) (m : Making R X) → IfOk (Knows os service) (log os service m)
  unfolding log
  log-IfOk service m = logged-IfOk service m (new_logger os service m.loggers m.disk) refl

  -- NewLogger leaves what is in the map, and adds its own logger.
  also_logged-IfOk :
      (name service : String) (m : Making R X) (q : (Outcome Logger × Loggers) × X)
      → new_logger os service m.loggers m.disk ≡ q
      → Knows os name (loggers_of os q)
      → IfOk
          (λ ls. Knows os name ls × Knows os service ls)
          (q.0.0, record m { loggers = q.0.1; disk = q.1 })
  also_logged-IfOk name service m ((ok i, loggers), x) e h =
      (h, (i.logger, (new_logger-Kept os service m.loggers loggers m.disk x i e).0))
  also_logged-IfOk name service m ((err q, loggers), x) e h = tt
  also_logged-IfOk name service m ((panics p, loggers), x) e h = tt

  also_log-IfOk :
      (name service : String) (m : Making R X)
      → Knows os name m.loggers
      → IfOk (λ ls. Knows os name ls × Knows os service ls) (log os service m)
  unfolding log
  also_log-IfOk name service m h =
      also_logged-IfOk name service m (new_logger os service m.loggers m.disk) refl
        (new_logger-Has os (file_name_of os name) service m.loggers m.disk h)

module _ {R X : Type 0} (os : Os X) (client : Client R) where
  lift-IfOk :
      (P : Loggers → Type 0) {A : Type 0} (f : Tree R → Outcome A × Tree R) (m : Making R X)
      → P m.loggers
      → IfOk P (lift f m)
  lift-IfOk P f m h = lifted-IfOk P (f m.tree) m h

  service-IfOk :
      (m : Making R X)
      → Knows os "Root Node" m.loggers
      → IfOk (Ready os) (
          bind
            (log os "File Node Service" m)
            (λ (l : Logger) m'. lift (Services.new_service client) m'))
  service-IfOk m h =
      bind-IfOk (Ready os) (Ready os) (log os "File Node Service" m) _
        (also_log-IfOk os "Root Node" "File Node Service" m h)
        (λ l m'. lift-IfOk (Ready os) (Services.new_service client) m')

  with_services-IfOk :
      (identifier : ℕ) (service : Service) (m : Making R X)
      → Knows os "Root Node" m.loggers
      → IfOk (Ready os) (with_services os client identifier service m)
  unfolding with_services new_directory_node_service new_streamable_node_service
      new_file_node_service
  with_services-IfOk identifier service m h =
      bind-IfOk (Knows os "Root Node") (Ready os) (lift (Services.new_service client) m) _
        (lift-IfOk (Knows os "Root Node") (Services.new_service client) m h)
        (λ d m1 h1.
          bind-IfOk (Ready os) (Ready os) (new_streamable_node_service os client m1) _
            (service-IfOk m1 h1)
            (λ s m2 h2.
              bind-IfOk (Ready os) (Ready os) (new_file_node_service os client m2) _
                (service-IfOk m2 h2.0)
                (λ f m3.
                  lift-IfOk (Ready os) (Services.add_directory client identifier service d s f)
                    m3)))

  -- Behind a New of the directory node service that succeeded, all loggers are there that another
  -- needs.
  pub new_directory-IfOk :
      (service : Service) (identifier : ℕ) (m : Making R X)
      → service.closed ≡ false
      → IfOk (Ready os) (new_directory os client service identifier m)
  unfolding new_directory
  new_directory-IfOk service identifier m running = simp running (
      bind-IfOk (Knows os "Root Node") (Ready os) (or_panic (log os "Root Node" m)) _
        (or_panic-IfOk (Knows os "Root Node") (log os "Root Node" m) (log-IfOk os "Root Node" m))
        (λ l m' h. with_services-IfOk identifier service m' h))
