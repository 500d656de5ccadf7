-- ===== src/Tests/Server.antt =====
-- Requests to the server.
use mdtree.Prelude.{
  Bytes, bytes, bytes_eq, bytes_discrete, ℕ_discrete, ◌≡◌, refl, true, false, has, [], List, ◌∷◌,
  none, some, arith, take, if◌then◌else◌,
}
use mdtree.Tests.Sample.{ascii, root, tree}
use mdtree.FilePath.{
  join, base, ext, rel, rel_elems, dir, clean, clean_elems, clean_step, render, join_slash, is_abs,
  elems, elems_of, split_slash,
}
use mdtree.Fs.Node.{walk, walk_elems, node_at, lookup_node, loc_discrete, put, delete, remove_node}
use mdtree.Fs.Reads.{locate, locate_elems, stat, stat_elems}
use mdtree.Fs.Writes.{remove_at}
use mdtree.Fs.Writes
use mdtree.Text.{
  is_blank, contains_byte, has_prefix, runes, runes_skip, decode_rune, is_space_rune, to_lower,
  to_lower_rune, encode, encode_rune,
}
use mdtree.Text.Strings.{all_space}
use mdtree.Files.Op.{◌>>=◌, ◌>>◌, gets, require, call}
use mdtree.Files.Markdown.{is_markdown}
use mdtree.Files.Resolver.{
  resolve, new_resolver, within, absolute, check_links, eval_symlinks, eval_symlinks_loop,
  eval_links, rejoin,
}
use mdtree.Files.Manager.{resolve_path, create}
use mdtree.Files.Manager
use mdtree.Files.Lister.{new_lister}
use mdtree.Search.Index.{new_index}
use mdtree.Search.Index
use mdtree.Search.Build.{missing, found, leaf, branch, nil, cons}
use mdtree.Auth.Token.{Bcrypt, random_token, fill, url_encode, url_digit}
use mdtree.Auth.Session.{SessionStore, new_session_store}
use mdtree.Auth.Session.History.{Event, created, after}
use mdtree.Auth.RateLimiter.{new_rate_limiter}
use mdtree.Auth.Cookie.{cookie_name, token}
use mdtree.Metrics.{new_metrics}
use mdtree.Api.Handler.{
  Handler, World, Request, Clock, write_json, write_error, write_file_error, decode_json,
  with_files,
}
use mdtree.Api.Files
use mdtree.Api.Endpoint.{Endpoint, endpoint}
use mdtree.Api.Endpoint.Refused.{endpoint-refused}
use mdtree.Api.Endpoint.Indexed.{IndexFollows, endpoint-IndexFollows}
use mdtree.Server.{Server, Route, Picked, matched, other_missing, serve_http}
use mdtree.Config.{Config, default_config}
use mdtree.Main.{Library, Step, served, collected, walked, swapped, steps, boot}
use mdtree.Main.Sound.{Sound, history, count_served, boot-Sound}
use mdtree.Server.Guarded.{swap, serve_http-unsigned}

abbrev mirror : Bcrypt
mirror = record { generate = λ salt plain. some plain; compare_hash = bytes_eq }

-- Every body decodes to the name of a note.
abbrev pub handler : Handler
handler = record {
  cases = ascii;
  files = new_resolver root false;
  lister = new_lister (new_resolver root false) [] false;
  auth = record { secure = true };
  bcrypt = mirror;
  password_hash = bytes "pw";
  root = root;
  encode = λ v. [];
  decode = λ fields body. some (λ field. bytes "b.md");
  found = λ fs path. missing;
}

abbrev pub world : World
world = record {
  fs = tree;
  index = Index.add ascii (bytes "/srv/b.md") (new_index root [] 0);
  metrics = new_metrics 0;
  limiter = new_rate_limiter 8 60;
}

abbrev clock : Clock
clock = record {
  started = 105;
  ended = 110;
  log_started = 105;
  log_ended = 109;
  guarded = 106;
  login = record { checked = 106; counted = 106; created = 106; sent = 106 };
  build_start = 106;
  build_end = 107;
  swapped = 107;
  set = 107;
  snapshot = 107;
}

abbrev request : Bytes → Bytes → Request
request method path = record {
  method = method;
  path = path;
  query = (bytes "path", bytes "b.md") ∷ [];
  body = bytes "{}";
  cookies = (cookie_name, bytes "ABCDAAAAAAAAAAAAAAAAAAAAAAAAAAAAAAAAAAAAAAA") ∷ [];
  remote_addr = bytes "10.0.0.1:80";
  clock = clock;
  random = none;
}

abbrev pub post : Request
post = request (bytes "POST") (bytes "/api/file")

abbrev pub sessions : SessionStore
sessions = new_session_store 100

-- The note is there already.
conflict : (endpoint handler Endpoint.create_file post (sessions, world)).0.status ≡ 409
unfolding resolve new_resolver is_blank all_space contains_byte runes runes_skip decode_rune
    is_space_rune bytes_discrete ℕ_discrete within absolute check_links eval_symlinks
    eval_symlinks_loop eval_links rejoin is_abs clean join split_slash clean_elems clean_step render
    join_slash rel rel_elems elems elems_of base dir has_prefix walk walk_elems node_at lookup_node
    loc_discrete ◌>>=◌ ◌>>◌ gets require call is_markdown ext has to_lower to_lower_rune encode
    encode_rune stat stat_elems create resolve_path endpoint Files.create_file with_files
    decode_json write_json write_error write_file_error take
conflict = refl

endpoint-refused_example :
    (endpoint handler Endpoint.create_file post (sessions, world)).1 ≡ (sessions, world)
endpoint-refused_example =
    endpoint-refused handler Endpoint.create_file post sessions world (omega (arith, conflict))
      (omega (arith, conflict))

deleted : (endpoint handler Endpoint.delete_file post (sessions, world)).0.status ≡ 200
unfolding Writes.remove remove_at locate locate_elems walk walk_elems node_at lookup_node
    loc_discrete put delete remove_node dir clean clean_elems clean_step render join_slash is_abs
    elems elems_of split_slash bytes_discrete ℕ_discrete take resolve new_resolver is_blank
    all_space contains_byte runes runes_skip decode_rune is_space_rune within absolute check_links
    eval_symlinks eval_symlinks_loop eval_links rejoin join rel rel_elems base has_prefix ◌>>=◌ ◌>>◌
    gets require call is_markdown ext has to_lower to_lower_rune encode encode_rune stat stat_elems
    resolve_path Manager.delete endpoint Files.delete_file with_files write_json write_error
    write_file_error
deleted = refl

endpoint-IndexFollows_example :
    IndexFollows handler Endpoint.delete_file post world
      (endpoint handler Endpoint.delete_file post (sessions, world)).1.1
endpoint-IndexFollows_example =
    endpoint-IndexFollows handler Endpoint.delete_file post sessions world (omega (arith, deleted))

-- A router that takes the first route with the method and the path.
abbrev first_route : List (Bytes × Bytes × Route) → Request → Picked
first_route [] r = other_missing
first_route ((method, path, route) ∷ rs) r =
    if bytes_eq method r.method
    then (if bytes_eq path r.path then matched route else first_route rs r)
    else first_route rs r

abbrev server : Server
server = record {
  api = handler;
  dist = record {
    has_entry = bytes_eq (bytes "index.html");
    file_server = λ path. record { status = 200; content_type = bytes "text/html"; body = path };
  };
  real_ip = λ r. r.remote_addr;
  show_int = λ n. n ∷ [];
  show_duration = λ n. n ∷ [];
  pick = first_route;
}

-- The session of the request's cookie, which ends at 105.
abbrev past : List Event
past = created (some (0 ∷ 16 ∷ 131 ∷ [])) 5 ∷ []

serve_http-unsigned_example :
    ((serve_http server post
        (after 100 past, swap (record tree { nodes = [] }) (new_index root [] 0) world)).0
      ≡ (serve_http server post (after 100 past, world)).0)
    × ((serve_http server post (after 100 past, world)).1.1.fs ≡ tree)
    × ((serve_http server post (after 100 past, world)).1.1.index ≡ world.index)
unfolding random_token fill url_encode url_digit bytes_discrete ℕ_discrete token
serve_http-unsigned_example =
    serve_http-unsigned server 100 past (record tree { nodes = [] }) (new_index root [] 0) post
      world (omega arith, tt) refl

abbrev library : Library
library = record {
  cases = ascii;
  bcrypt = mirror;
  decode_yaml = λ text cfg. some cfg;
  encode = handler.encode;
  decode = handler.decode;
  found = λ fs path. found (branch path true (cons (leaf (bytes "b.md")) nil));
  dist = server.dist;
  real_ip = server.real_ip;
  show_int = server.show_int;
  show_duration = server.show_duration;
  pick = first_route;
}

abbrev config : Config
config = record default_config { root = root }

-- A request without a session comes between the walk of a build and its swap; the collector ticks.
abbrev events : List Step
events = collected 200 ∷ swapped 3 4 ∷ served post ∷ walked 1 2 ∷ []

boot-Sound_example :
    Sound
      (boot library config (bytes "pw") 0 tree).0
      86400000000000
      root
      (history
        (boot library config (bytes "pw") 0 tree).0
        events
        (boot library config (bytes "pw") 0 tree).1)
      (count_served events)
      (steps
        (boot library config (bytes "pw") 0 tree).0
        events
        (boot library config (bytes "pw") 0 tree).1)
boot-Sound_example = boot-Sound library config (bytes "pw") 0 tree events
