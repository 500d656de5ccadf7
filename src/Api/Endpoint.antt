-- ===== src/Api/Endpoint.antt =====
-- The endpoints behind the guard, as one handler for each.
mod Outcome
pub mod Refused
pub mod Indexed
pub mod Kept
pub mod ReadBack
use mdtree.Auth.Session.{SessionStore}
use mdtree.Auth.Middleware.{Response}
use mdtree.Api.Handler.{Handler, World, Request}
use mdtree.Api.Files
use mdtree.Api.Search

pub data Endpoint : Type 0 where
  tree get_file create_file save_file delete_file rename_file : Endpoint
  mkdir delete_dir rename_dir search reindex stats : Endpoint

abbrev pub on_world :
    (World → Response × World) → SessionStore × World → Response × (SessionStore × World)
on_world f (s, w) = let (res, w') = f w in (res, (s, w'))

-- The method of `Handler` that is registered for the endpoint.
unfoldable pub endpoint :
    Handler → Endpoint → Request → SessionStore × World → Response × (SessionStore × World)
endpoint h tree r = on_world (Files.tree h r)
endpoint h get_file r = on_world (Files.get_file h r)
endpoint h create_file r = on_world (Files.create_file h r)
endpoint h save_file r = on_world (Files.save_file h r)
endpoint h delete_file r = on_world (Files.delete_file h r)
endpoint h rename_file r = on_world (Files.rename_file h r)
endpoint h mkdir r = on_world (Files.mkdir h r)
endpoint h delete_dir r = on_world (Files.delete_dir h r)
endpoint h rename_dir r = on_world (Files.rename_dir h r)
endpoint h search r = on_world (Search.search h r)
endpoint h reindex r = on_world (Search.reindex h r)
endpoint h stats r = Search.stats_of h r
