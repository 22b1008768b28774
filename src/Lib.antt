-- ===== src/Lib.antt =====
-- The core logic of Modoboa, a platform to host and administrate mail: its Python packages under
-- modoboa/. Django keeps the state in tables; a table that an operation works on is a list of
-- rows here, a query selects from it, and an operation takes the tables and returns them.
-- Exceptions are values of a Result; what an exception leaves changed is returned beside it where
-- something was changed before.
--
-- The files, with the code that each models (paths from the root of the repository):
-- - Prelude: texts as lists of code points, dictionaries in insertion order, integers over the
--   native numbers, results.
-- - Parameters (modoboa/parameters/tools.py): Registry has the declared applications with their
--   defaults, Structure the descriptions for the settings pages, Manager the stored values over
--   the registry. The registry is one object that all managers share, so each method that writes
--   to it returns it. Names are lower-cased as ASCII.
-- - EmailUtils (modoboa/lib/email_utils.py): split_address, split_local_part, split_mailbox.
-- - Policyd (modoboa/policyd): Request reads the attributes that Postfix sends, Policies decides
--   and counts, Limits and Alarms keep the counters in step with the limits and reset them, Race
--   interleaves connections await by await. The Redis hash is an interface (Redis) whose laws are
--   those of the documented commands; Redis/Memory is an instance.
-- - Permissions (modoboa/lib/permissions.py, modoboa/core/models.py): Table is ObjectAccess,
--   Grant the operations on it, Accounts the questions that a user is asked.
-- - Limits (modoboa/limits): World has the rows that are counted, Limit the current values and
--   is_exceeded, Pool the resources that are handed on and back, Handlers the receivers of the
--   signals, Roles the change of a role, which sends one of them, with the receiver of
--   modoboa/admin/handlers.py.
-- - Mail (modoboa/admin/models): Quota is Mailbox.set_quota, over a domain object that caches the
--   sum of the quotas, Dns is Domain.dns_global_status, Admins is Domain.add_admin and
--   remove_admin, which use Permissions and Limits, Recipients is the change of the recipients of
--   an alias.
-- - Transport (modoboa/transport/backends.py): the settings of a backend and the manager.
-- - Imap (modoboa/lib/imap_utf7.py): the coding of folder names, over a codec interface of which
--   Imap/Unary is an instance.
-- - Fetch (modoboa/webmail/lib/fetch_parser.py): Structure has BODYSTRUCTURE, Parser the machine
--   on tokens.
-- - Extensions (modoboa/core/extensions.py): the descriptions and the pool.
-- - Paginator (modoboa/lib/paginator.py): pages of a list.
-- - DnsChecker (modoboa/admin/dns_checker.py, modoboa/admin/models/mxrecord.py): Mx has the cache
--   of MX records and the alarms about them, Blacklist the questions to DNSBL providers and what
--   becomes of the answers. The tables hold the rows of one domain; alarms are those of Policyd.
-- - Amavis (modoboa/amavis/lib.py, modoboa/amavis/handlers.py): Tables has users and policies,
--   Records and Learning the calls on them, Handlers the receivers. An exception carries the
--   tables as they are when it is raised.
-- - Webmail (modoboa/webmail/lib/imaputils.py): the checks of what comes from outside before it
--   goes into an IMAP command.
-- - Passwords (modoboa/core/password_validation.py): the rules for new passwords.
-- - Maillog (modoboa/maillog/management/commands/logparser.py): the counters of the log parser; a
--   call that raises has no data afterwards. Rrd has the points that update_rrd writes. The
--   expressions that find events in the log, and rrdtool, are not modelled.
-- - DnsTools (modoboa/dnstools/lib.py, modoboa/dnstools/constants.py): Records finds the TXT
--   records, Spf and Tags check them.
--
-- How the parts interact: Policyd splits a user name with EmailUtils; Limits reads the table of
-- Permissions; Mail.Admins checks a limit of a domain before it grants. What comes from elsewhere
-- is an argument: the super users that a query lists, the global parameters, the clock, the
-- application that guess_extension_name finds on the call stack, the tokens that the regular
-- expressions of the lexer find, the validators and the static function of Django.
--
-- Loops run over lists, so no fuel is needed, but for three: Race counts awaits, and six of them
-- end every connection; Policyd.Schedule counts the rounds of wait_for, and one more than the
-- whole days that are left is enough, which makes three for a wait until the next midnight; the
-- range in Maillog.Rrd goes 60 seconds on in each round and takes as many rounds as the time that
-- it stops at. Numbers have no bound in Python and none here. Percentages in floating point,
-- logging, mail that is sent, sockets, and the saving of other columns are not modelled. The rows
-- of a table are looked at one operation at a time, as within one transaction, except in Race.
pub mod Prelude
pub mod Parameters
pub mod EmailUtils
pub mod Policyd
pub mod Permissions
pub mod Limits
pub mod Mail
pub mod Transport
pub mod Imap
pub mod Fetch
pub mod Extensions
pub mod Paginator
pub mod Amavis
pub mod Passwords
pub mod DnsTools
pub mod Maillog
pub mod DnsChecker
pub mod Webmail
