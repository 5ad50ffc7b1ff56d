-- ===== src/Lib.antt =====
-- awg-portal: a web portal that manages WireGuard and AmneziaWG interfaces, their peers and the users
-- who own them. This library models the parts of the Go program that decide something, and proves what
-- makes them correct. Paths are from the repository's root.
--
-- The parts and their files:
--   Errors         internal/domain/errors.go and Go's error values: `errors.Is`, wrapping, joining, and
--                  panics as a third outcome. A message is the constant text of its format string.
--   Access         internal/domain/context.go: who acts, and the two access checks.
--   User           internal/domain/user.go, base.go, and the reserved names of sanitize.go. A field
--                  has the name of the struct's field in lower case; a `*time.Time` is an address with
--                  the time stored there. User/Password has the methods that need bcrypt.
--   Database       the user functions of `SqlRepo` in internal/adapters/database.go, over GORM.
--                  `save_user` is what `SaveUser` does to the contents if it succeeds;
--                  Database/Transaction has it statement by statement, with what failures leave.
--   Users          internal/app/users/user_manager.go (`Manager`): `update_user` is `UpdateUser`,
--                  `remove_user` is `DeleteUser`, `fetch_user` is `GetUser`, and the others are named as
--                  they are there. The state is the database and the list of published events.
--   RateLimit      internal/app/api/v0/handlers/totp_ratelimit.go. RateLimit.Window.Trace is how
--                  `handleLoginTotpPost` calls it, cut where the limiter locks its mutex.
--   Totp           internal/app/auth/auth_totp.go (`TotpAuthenticator`): codes of six digits, recovery
--                  codes, enrollment. Totp/Manager gives it the user manager of Users. Totp/Logins
--                  has sequences of logins, each of which loads its user from the store first.
--   Csrf           internal/app/api/core/middleware/csrf.
--   Text           texts as lists of code points: their bytes, and `strings.TrimSpace`.
--   Cors           internal/app/api/core/middleware/cors: `serve` is `Handler`.
--   Ip             internal/domain/ip.go: addresses and prefixes, as numbers.
--   Interface      internal/domain/interface.go and options.go; Interface/RoutingTable has the routing
--                  table, Interface/Physical the conversions.
--   Peer           internal/domain/peer.go; Peer/Convert and Peer/Physical have the conversions,
--                  Peer/Editing what a user may edit, Peer/Routes `GetAllowedIPs`.
--   Allocation     `getFreshPeerIpConfig` of internal/app/wireguard/wireguard_peers.go.
--   Preparation    the checks, `PreparePeer` and `prepareDefaultPeer` of the same file.
--   Peers          the operations of that file that change peers: `remove_peer` is `DeletePeer`, and the
--                  others are named as they are there. An operation maps a state (database, controllers,
--                  published events) to a result and the state after it, also when it fails, since what
--                  it has done to the controllers and in earlier transactions stays. Peers/Batches has the
--                  operations that create several peers. Database/PeerStore has the functions of
--                  `SqlRepo` that they call.
--   Processes      the table of amneziawg-go processes of internal/lowlevel/awg.go, cut at the critical
--                  sections of its mutex; Processes/Steps lets them interleave freely.
--   Statistics     the status of a peer as internal/app/wireguard/statistics.go updates it, and the traffic
--                  rates of internal/domain/statistics.go. A time that is read from the clock is an
--                  argument. Statistics.Reach has the statuses that the database may hold.
--   Ldap           `sync_existing` is the branch of `updateLdapUsers` in internal/app/users/ldap_sync.go for a
--                  user that exists already.
--   Awg            `AWGParams` of internal/lowlevel/awg.go and the AWG rules of
--                  internal/domain/interface.go.
--   Prelude        shared names, lists, tests and signed integers.
--
-- How they interact: the user manager checks with Access and User, and writes through Database, which
-- it takes as an argument together with bcrypt and the configuration. The TOTP authenticator takes the
-- user manager as an interface. The peer manager prepares a peer (Preparation), with addresses that
-- Allocation finds among those that Database/PeerStore reads, pushes it to the controller of the
-- interface's backend and stores it. The middlewares stand alone.
--
-- Parameters: GORM (`Database.Gorm`, `Database.Transaction.GormTransactions`,
-- `Database.PeerStore.PeerGorm`), net/netip (`Ip.IpLibraries`), the
-- controllers of the backends (`Peers.Controllers`), bcrypt (`User.Password.Bcrypt`), the TOTP library with bcrypt and
-- JSON (`Totp.TotpLibraries`), base64 with the random reader (`Csrf.CsrfLibraries`), and functions on
-- texts that read tables of Unicode (`Cors.CorsLibraries`) are records whose fields are the calls that
-- the program makes and the laws that it relies on; Database/Memory, Database/PeerMemory and the Tests modules give values of
-- them. The time of a call and the random numbers it draws are arguments.
--
-- The loops are recursions on lists, but for those of `GenerateAWGParams`, which draw random numbers until
-- one fits: they have fuel, and `Awg.Generate.Fuel` shows that fuel suffices as soon as some number among
-- that many draws fits. A run without enough fuel gives `none`, never parameters.
-- The loop of `getFreshPeerIpConfig` has as much fuel as there are used addresses, and one more, which
-- always suffices (`Allocation.Loop.fresh_ip-enough`).
--
-- Not modelled: HTTP routing and JSON, the controllers that talk to the kernel, RouterOS and pfSense,
-- mail, audit, webhooks, metrics and templates, which are input and output; OAuth, OIDC and LDAP
-- clients, which are libraries; logging. Of the user manager the queries that only list users.
pub mod Prelude
pub mod Errors
pub mod Access
pub mod User
pub mod Database
pub mod Users
pub mod Text
pub mod Totp
pub mod Csrf
pub mod Ip
pub mod Interface
pub mod Peer
pub mod Allocation
pub mod Preparation
pub mod Peers
pub mod Cors
pub mod RateLimit
pub mod Awg
pub mod Processes
pub mod Statistics
pub mod Ldap
