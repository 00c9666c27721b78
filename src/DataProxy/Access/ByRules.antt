-- ===== src/DataProxy/Access/ByRules.antt =====
-- What configured rules do to requests for the root, for packages and for bundles.
use aos_server.Base.{false, ◌≡◌, is_nil}
use aos_server.DataProxy.Rules.Root
use aos_server.DataProxy.Rules.Package
use aos_server.DataProxy.Rules.Bundles
use aos_server.DataProxy.Caching.{ProxyCache}
use aos_server.DataProxy.Access.{Handler, Request, User, root_rule}

-- Wherever rules for the root are configured, they see nothing of the request: whether it passes them
-- depends neither on the user nor on the cache, the method or the headers.
pub root_rule-blind :
    (h : Handler) (c c' : ProxyCache) (req req' : Request) (user user' : User)
    → is_nil h.engine.root ≡ false
    → root_rule h c req user ≡ root_rule h c' req' user'
unfolding root_rule Root.new Root.attributes Root.permissions Root.user_id Root.method Root.headers
    Root.build
root_rule-blind h c c' req req' (key, attrs) (key', attrs') e = rw e
