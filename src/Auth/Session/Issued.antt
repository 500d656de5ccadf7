-- ===== src/Auth/Session/Issued.antt =====
-- The token of a session that `Create` makes.
use mdtree.Prelude.{[], Bytes, Option, none, some}
use mdtree.Prelude.Assoc
use mdtree.Auth.Session.{Session}

abbrev token_of : Option Session → Bytes
token_of none = []
token_of (some sess) = sess.token
