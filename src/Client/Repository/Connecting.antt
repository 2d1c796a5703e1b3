-- ===== src/Client/Repository/Connecting.antt =====
-- `New` of filesystem/client/repository/main.go: the clients of a configuration.
use Prim.Native.String.{String}
use mathlib.Core.Path.{subst}
use fuse_video_streamer.Base.{◌≡◌, refl, sym, ap, ◌∙◌, ◌⊎◌, inl, inr, List, [], ◌∷◌, ◌++◌}
use fuse_video_streamer.Go.{Outcome, ok, err, panics, and_then}
use fuse_video_streamer.Config.{FileSystemProvider, Config, get, get_file_servers}
use fuse_video_streamer.Client.{Client}
use fuse_video_streamer.Client.Grpc.{Api, file_system}
use fuse_video_streamer.Client.Grpc.Provider.{new_provider}
use fuse_video_streamer.Client.Repository.{
  ClientRepository, connect_all, new_repository, get_clients, get_client_by_name, Unnamed, Finds,
  get_client_by_name-Finds,
}

module _ {R : Type 0} (dial : String → Outcome (Api R)) where
  -- The target of the entry can be dialled.
  abbrev pub Dials : FileSystemProvider → Outcome (Api R) → Type 0
  Dials entry (ok api) = Unit {0}
  Dials entry _ = ⊥

  abbrev pub AllDial : List FileSystemProvider → Type 0
  AllDial [] = Unit {0}
  AllDial (e ∷ es) = Dials e (dial e.target) × AllDial es

  -- The client is made from the entry.
  abbrev pub Connects : FileSystemProvider → Client R → Type 0
  Connects e c =
      (api : Api R) × (dial e.target ≡ ok api)
      × (c ≡ record { name = e.name; file_system = file_system api })

  -- The clients are those of the entries, in their order.
  abbrev pub AllConnect : List FileSystemProvider → List (Client R) → Type 0
  AllConnect [] [] = Unit {0}
  AllConnect (e ∷ es) (c ∷ cs) = Connects e c × AllConnect es cs
  AllConnect _ _ = ⊥

  -- What `New` gives for the entries: their clients, or the error of the first that cannot be
  -- dialled.
  abbrev pub Connected : List FileSystemProvider → Outcome (ClientRepository R) → Type 0
  Connected es (ok cs) = AllConnect es cs
  Connected es (err x) =
      (before : List FileSystemProvider) × (e : FileSystemProvider) × (after : List
        FileSystemProvider)
      × (es ≡ before ++ e ∷ after)
      × AllDial before
      × (dial e.target ≡ err x)
  Connected es (panics p) =
      (before : List FileSystemProvider) × (e : FileSystemProvider) × (after : List
        FileSystemProvider)
      × (es ≡ before ++ e ∷ after)
      × AllDial before
      × (dial e.target ≡ panics p)

  rest-Connected :
      (e : FileSystemProvider) (es : List FileSystemProvider) (api : Api R)
      (rest : Outcome (ClientRepository R))
      → dial e.target ≡ ok api
      → Connected es rest
      → Connected (e ∷ es) (
          and_then rest (λ (cs : ClientRepository R).
            ok ((record { name = e.name; file_system = file_system api }) ∷ cs)))
  rest-Connected e es api (ok cs) d c = ((api, d, refl), c)
  rest-Connected e es api (err x) d (before, f, after, split, all, bad) =
      (e ∷ before, f, after, ap (λ l. e ∷ l) split, (subst (Dials e) (sym d) tt, all), bad)
  rest-Connected e es api (panics p) d (before, f, after, split, all, bad) =
      (e ∷ before, f, after, ap (λ l. e ∷ l) split, (subst (Dials e) (sym d) tt, all), bad)

  dialled-Connected :
      (e : FileSystemProvider) (es : List FileSystemProvider) (a : Outcome (Api R))
      (rest : Outcome (ClientRepository R))
      → dial e.target ≡ a
      → Connected es rest
      → Connected (e ∷ es) (
          and_then
            (and_then a
              (λ (api : Api R). ok (record { name = e.name; file_system = file_system api })))
            (λ (c : Client R). and_then rest (λ (cs : ClientRepository R). ok (c ∷ cs))))
  dialled-Connected e es (ok api) rest d c = rest-Connected e es api rest d c
  dialled-Connected e es (err x) rest d c = ([], e, es, refl, tt, d)
  dialled-Connected e es (panics p) rest d c = ([], e, es, refl, tt, d)

  connect_all-Connected : (es : List FileSystemProvider) → Connected es (connect_all dial es)
  unfolding connect_all new_provider
  connect_all-Connected [] = tt
  connect_all-Connected (e ∷ es) =
      dialled-Connected e es (dial e.target) (connect_all dial es) refl (connect_all-Connected es)

  -- New of the repository gives the clients of all configured file servers, in their order, each
  -- with the name of its entry and the file system over the stubs that were dialled for its
  -- target; if a target cannot be dialled it gives the error, or the panic, of the first such.
  pub new_repository-Connected :
      (cfg : Config) → Connected cfg.file_servers (new_repository dial (ok cfg))
  unfolding new_repository get_file_servers get
  new_repository-Connected cfg = connect_all-Connected cfg.file_servers

  -- The name is that of an entry.
  abbrev pub Configured : List FileSystemProvider → String → Type 0
  Configured [] name = ⊥
  Configured (e ∷ es) name = (e.name ≡ name) ⊎ Configured es name

  Configured-named :
      (es : List FileSystemProvider) (cs : List (Client R)) (name : String)
      → AllConnect es cs
      → Configured es name
      → Unnamed cs name
      → ⊥
  Configured-named [] cs name all p u = p
  Configured-named (e ∷ es) [] name all p u = all
  Configured-named (e ∷ es) (c ∷ cs) name ((api, d, is), all) (inl q) u =
      u.0 (ap (λ (x : Client R). x.name) is ∙ q)
  Configured-named (e ∷ es) (c ∷ cs) name (one, all) (inr q) u =
      Configured-named es cs name all q u.1

  abbrev pub NamedClient : String → Outcome (Client R) → Type 0
  NamedClient name (ok c) = c.name ≡ name
  NamedClient name _ = ⊥

  found-NamedClient :
      (es : List FileSystemProvider) (cs : List (Client R)) (name : String) (r : Outcome (Client R))
      → AllConnect es cs
      → Configured es name
      → Finds cs name r
      → NamedClient name r
  unfolding get_clients
  found-NamedClient es cs name (ok c) all p (before, after, split, is, others) = is
  found-NamedClient es cs name (err e) all p (is, others) = Configured-named es cs name all p others
  found-NamedClient es cs name (panics x) all p f = f

  -- In a repository that New made, GetClientByName finds a client for every name of the
  -- configuration.
  pub every_name_resolves :
      (cfg : Config) (cs : ClientRepository R) (name : String)
      → new_repository dial (ok cfg) ≡ ok cs
      → Configured cfg.file_servers name
      → NamedClient name (get_client_by_name cs name)
  every_name_resolves cfg cs name made p =
      found-NamedClient cfg.file_servers cs name (get_client_by_name cs name)
        (subst (Connected cfg.file_servers) made (new_repository-Connected cfg)) p
        (get_client_by_name-Finds cs name)
