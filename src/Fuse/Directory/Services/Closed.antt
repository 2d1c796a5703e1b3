-- ===== src/Fuse/Directory/Services/Closed.antt =====
-- The node services of filesystem/server/provider/fuse/filesystem behind their `Close`.
use fuse_video_streamer.Base.{ℕ, ◌≡◌, none, arith}
use fuse_video_streamer.Go.{failure, service_is_closed, err}
use fuse_video_streamer.Client.{Client}
use fuse_video_streamer.Fuse.Directory.{Service, Tree}
use fuse_video_streamer.Fuse.Directory.Services.{
  close_service, new_directory, new_streamable, new_file,
}

-- Behind a Close, which reports no error, a service makes no node of any kind and asks nobody.
pub closed_service_makes_none :
    {R : Type 0} (client : Client R) (service : Service) (identifier : ℕ) (t : Tree R)
    → let (e, closed) = close_service service in
      (e ≡ none)
      × (new_directory client closed identifier t ≡ (err (failure service_is_closed), t))
      × (new_streamable client closed identifier t ≡ (err (failure service_is_closed), t))
      × (new_file client closed identifier t ≡ (err (failure service_is_closed), t))
unfolding close_service new_directory new_streamable new_file
closed_service_makes_none client service identifier t = ground arith
