-- ===== src/Fuse/FileSystem/Overlap/Calm.antt =====
-- What holds in every state while `Close` of filesystem/server/provider/fuse/filesystem/main.go and requests
-- overlap.
use Prim.Native.String.{String}
use mathlib.Core.Path.{subst}
use fuse_video_streamer.Base.{◌≡◌}
use fuse_video_streamer.Go.{returns}
use fuse_video_streamer.Stream.External.{Http, Ring}
use fuse_video_streamer.Fuse.Registry.{NodeRef, without_nodes}
use fuse_video_streamer.Fuse.Directory.Served.{AllServed, AllServed-instances}
use fuse_video_streamer.Fuse.FileSystem.{FileSystem, Session, Runtime, close_node}
use fuse_video_streamer.Fuse.FileSystem.Follows.{IsSound}
use fuse_video_streamer.Fuse.FileSystem.Nodes.{Closes, Only, close_node-Closes}
use fuse_video_streamer.Fuse.FileSystem.Reached.{step-Advances}
use fuse_video_streamer.Fuse.FileSystem.Overlap.Due.{is_instance-without_nodes}
use fuse_video_streamer.Fuse.FileSystem.Overlap.{
  ClosePc, State, with_instances, Action, requests, swaps, finds_closed, drops, enters, enters_late,
  closes_early, empties, closes, joins, ends, Actions, stays, acts,
}

module _ {R W B : Type 0} where
  -- All nodes are well-formed, and all directories served.
  pub record Calm (s : State R W B) : Type 0 where
    pub sound : IsSound s.session
    pub served : AllServed s.session.tree.instances s.session.tree.directories

module _ {R W B : Type 0} (http : Http W) (ring : Ring B) where
  -- What the goroutine of a node did.
  pub closed :
      (rt : Runtime) (m : NodeRef) (s t : Session R W B)
      → IsSound s
      → close_node http ring rt m s ≡ returns t
      → Closes (Only m) s (returns t)
  closed rt m s t sound e = subst (Closes (Only m) s) e (close_node-Closes http ring rt m s sound)

  with_empty-Calm :
      (s : State R W B) (name : String) (pc : ClosePc)
      → Calm s
      → Calm (record s {
        session = with_instances s.session (without_nodes s.session.tree.instances name);
        closer = pc;
      })
  with_empty-Calm s name pc c = record {
    sound = c.sound;
    served =
        AllServed-instances s.session.tree.instances (without_nodes s.session.tree.instances name)
          s.session.tree.directories (is_instance-without_nodes s.session.tree.instances name)
          c.served;
  }

  follows-Calm :
      (m : NodeRef) (s : State R W B) (t : Session R W B) (pc : ClosePc)
      → Calm s
      → Closes (Only m) s.session (returns t)
      → Calm (record s { session = t; closer = pc })
  follows-Calm m s t pc c (f, shut) = record { sound = f.sound; served = f.served c.served }

  same_session-Calm :
      (s : State R W B) (fs : FileSystem) (pc : ClosePc)
      → Calm s
      → Calm (record { file_system = fs; session = s.session; closer = pc })
  same_session-Calm s fs pc c = record { sound = c.sound; served = c.served }

  action-Calm : {s t : State R W B} → Calm s → Action http ring s t → Calm t
  action-Calm {s} c (requests t step) =
      let on = step-Advances http ring c.served c.sound step in
      record { sound = on.sound c.sound; served = on.served c.served }
  action-Calm {s} c (swaps e running) = same_session-Calm s _ _ c
  action-Calm {s} c (finds_closed e off) = same_session-Calm s _ _ c
  action-Calm {s} c (drops b e served) = same_session-Calm s _ _ c
  action-Calm {s} c (enters before after name e) = same_session-Calm s _ _ c
  action-Calm {s} c (enters_late name names e is) = same_session-Calm s _ _ c
  action-Calm {s} c (closes_early rt name before after m names t e q) =
      follows-Calm m s t _ c (closed rt m s.session t c.sound q)
  action-Calm {s} c (empties name nodes names e) = with_empty-Calm s name _ c
  action-Calm {s} c (closes rt before after m names t e q) =
      follows-Calm m s t _ c (closed rt m s.session t c.sound q)
  action-Calm {s} c (joins names e) = same_session-Calm s _ _ c
  action-Calm {s} c (ends e) = same_session-Calm s _ _ c

  pub actions-Calm : {s t : State R W B} → Calm s → Actions http ring s t → Calm t
  actions-Calm c stays = c
  actions-Calm c (acts before act) = action-Calm (actions-Calm c before) act
