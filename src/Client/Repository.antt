-- ===== src/Client/Repository.antt =====
-- filesystem/client/repository/main.go: the configured clients, by name.
pub mod Connecting
use Prim.Native.String.{String}
use text.Mathlib.Text.{◌==◌ as str_eq}
use text.Mathlib.TextEquality.{eq_iff}
use fuse_video_streamer.Base.{
  ◌≡◌, ◌≢◌, refl, ap, inl, inr, List, [], ◌∷◌, ◌++◌, if◌then◌else◌, Bool-cases,
}
use fuse_video_streamer.Go.{failure, client_not_found, Outcome, ok, err, and_then}
use fuse_video_streamer.Config.{FileSystemProvider, Config, get_file_servers}
use fuse_video_streamer.Client.{Client}
use fuse_video_streamer.Client.Grpc.{Api}
use fuse_video_streamer.Client.Grpc.Provider.{new_provider}

-- `repository.clients`
abbrev pub ClientRepository : Type 0 → Type 0
ClientRepository R = List (Client R)

module _ {R : Type 0} (dial : String → Outcome (Api R)) where
  -- The loop of `New`.
  unfoldable pub connect_all : List FileSystemProvider → Outcome (ClientRepository R)
  connect_all [] = ok []
  connect_all (entry ∷ entries) =
      let rest = connect_all entries in
      and_then (new_provider dial entry)
        (λ (c : Client R). and_then rest (λ (cs : ClientRepository R). ok (c ∷ cs)))

  -- `New()`, with what the configuration file holds. A logger is always made.
  unfoldable pub new_repository : Outcome Config → Outcome (ClientRepository R)
  unfolding connect_all
  new_repository file = and_then (get_file_servers file) connect_all

module _ {R : Type 0} where
  unfoldable pub get_client_by_name : ClientRepository R → String → Outcome (Client R)
  get_client_by_name [] name = err (failure client_not_found)
  get_client_by_name (c ∷ cs) name = if str_eq c.name name then ok c else get_client_by_name cs name

  unfoldable pub get_clients : ClientRepository R → List (Client R)
  get_clients cs = cs

  abbrev pub Unnamed : ClientRepository R → String → Type 0
  Unnamed [] name = Unit {0}
  Unnamed (c ∷ cs) name = (c.name ≢ name) × Unnamed cs name

  -- What the search gives: the first client of that name, or, where there is none, the error.
  abbrev pub Finds : ClientRepository R → String → Outcome (Client R) → Type 0
  Finds cs name (ok c) =
      (before : List (Client R)) × (after : List (Client R)) × (get_clients cs
        ≡ before ++ c ∷ after)
      × (c.name ≡ name)
      × Unnamed before name
  Finds cs name (err e) = (e ≡ failure client_not_found) × Unnamed (get_clients cs) name
  Finds cs name (Outcome.panics p) = ⊥

  extend-Finds :
      (c : Client R) (cs : ClientRepository R) (name : String) (r : Outcome (Client R))
      → c.name ≢ name
      → Finds cs name r
      → Finds (c ∷ cs) name r
  unfolding get_clients
  extend-Finds c cs name (ok d) ne (before, after, split, named, others) =
      (c ∷ before, after, ap (λ l. c ∷ l) split, named, (ne, others))
  extend-Finds c cs name (err e) ne (is, others) = (is, (ne, others))
  extend-Finds c cs name (Outcome.panics p) ne h = absurd h

  -- GetClientByName gives the first client of GetClients that has the name, and fails exactly
  -- where no client has it.
  pub get_client_by_name-Finds :
      (cs : ClientRepository R) (name : String) → Finds cs name (get_client_by_name cs name)
  unfolding get_client_by_name get_clients
  get_client_by_name-Finds [] name = (refl, tt)
  get_client_by_name-Finds (c ∷ cs) name = elim (Bool-cases (str_eq c.name name)) [
    | inl e ↦ rw e ([], cs, refl, (eq_iff c.name name).0 e, tt)
    | inr e ↦ rw e (
        extend-Finds c cs name (get_client_by_name cs name)
          (λ same. cc (e, (eq_iff c.name name).1 same)) (get_client_by_name-Finds cs name))
  ]
