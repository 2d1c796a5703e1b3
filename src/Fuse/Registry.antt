-- ===== src/Fuse/Registry.antt =====
-- filesystem/server/provider/fuse/registry/main.go: all nodes that were made for a client, under the
-- name of its root, to be closed with the file system.
use Prim.Native.String.{String}
use text.Mathlib.Text.{◌==◌ as str_eq}
use fuse_video_streamer.Base.{
  ℕ, Bool, true, false, Option, none, some, List, [], ◌∷◌, ◌++◌, if◌then◌else◌,
}
use fuse_video_streamer.Go.{Error, Outcome, ok, panics, explicit, nil_dereference}
use fuse_video_streamer.Client.{Client, Node}

-- A node that a service made, by its index among the nodes of its kind.
pub data NodeRef : Type 0 where
  directory streamable file : ℕ → NodeRef

-- The map `instances`.
abbrev pub Instances : Type 0
Instances = List (String × List NodeRef)

abbrev pub is_instance : Instances → String → Bool
is_instance [] name = false
is_instance ((other, nodes) ∷ rest) name = if str_eq other name then true else is_instance rest name

-- `if instance, ok := instances[root.GetName()]; ok { … }`, else a new registry is stored.
abbrev pub with_instance : Instances → String → Instances
with_instance instances name =
    if is_instance instances name then instances else (name, []) ∷ instances

abbrev pub named : Instances → String → Outcome (String × Instances)
named instances name = ok (name, with_instance instances name)

-- `GetName` of the root: a panic where it is nil. `panic(err)` where there is an error.
abbrev pub instance_of : Instances → Option Node × Error → Outcome (String × Instances)
instance_of instances (root, some e) = panics explicit
instance_of instances (none, none) = panics nil_dereference
instance_of instances (some root, none) = named instances root.name

-- `GetInstance`: a registry is known by its name.
unfoldable pub get_instance :
    {R : Type 0} → Client R → Instances → R → Outcome (String × Instances) × R
get_instance client instances r =
    let (answer, r') = client.file_system.root r client.name in (instance_of instances answer, r')

-- `registry.Add(node)`
unfoldable pub add : NodeRef → Instances → String → Instances
add node [] name = []
add node ((other, nodes) ∷ rest) name =
    let added = add node rest name in
    if str_eq other name then (other, nodes ++ node ∷ []) ∷ rest else (other, nodes) ∷ added

-- `registry.nodes = nil` in each of the registries.
abbrev pub emptied : Instances → Instances
emptied [] = []
emptied ((name, nodes) ∷ rest) = (name, []) ∷ emptied rest

-- `registry.nodes` of the registry with a name; a map has one.
abbrev pub nodes_of : Instances → String → List NodeRef
nodes_of [] name = []
nodes_of ((other, nodes) ∷ rest) name =
    let others = nodes_of rest name in if str_eq other name then nodes ++ others else others

-- `registry.nodes = nil` in the registry with a name.
abbrev pub without_nodes : Instances → String → Instances
without_nodes [] name = []
without_nodes ((other, nodes) ∷ rest) name =
    let others = without_nodes rest name in
    if str_eq other name then (other, []) ∷ others else (other, nodes) ∷ others

-- The keys of the map.
abbrev pub names_of : Instances → List String
names_of [] = []
names_of ((name, nodes) ∷ rest) = name ∷ names_of rest
