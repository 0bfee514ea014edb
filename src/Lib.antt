-- ===== src/Lib.antt =====
-- A verification library for the backend of TerminalAccessManager, which reads the terminals of a
-- network, judges each by a whitelist and by baselines of known machines, and blocks the address of
-- a terminal that complies with neither on the firewalls bound to its source.
--
-- Parts of the program and files of the library:
-- - Prelude: tests on numbers, lists, and texts as lists of character codes; Prelude/Results is
--   the result of a validation.
-- - Ipv4: the addresses and networks of Python's `ipaddress`, as far as the services use them.
--   A text is parsed to a number below 2 ^ 32; a network is a base with a prefix length.
-- - Mac, IpRange, BlockTime: the spellings of MAC addresses, the regular expressions of address
--   ranges and block durations (backend/app/services/terminal_service.py,
--   terminal_exclusion_service.py and compliance_service.py).
-- - Models: rows of the tables terminals and blacklist (backend/app/models). A nullable column is
--   an Option; a point in time is a number of microseconds. A row
--   has the columns that the modelled code decides on and those that it writes with them; the record
--   of the last operation in a blacklist row is left out, as are display names.
-- - Comments: the segments of a terminal's comments (compliance_service.py).
-- - Exclusion: the rules that take terminals out of the books
--   (backend/app/services/terminal_exclusion_service.py): matching and validation, in Purge the
--   evaluation of a rule, the unblocking of blocked terminals, the purge and the stale flags, and in
--   Rules the operations on the table of rules.
-- - Scopes: the table of compliance scopes (backend/app/services/compliance_scope_service.py).
-- - Compliance: backend/app/services/compliance_service.py. Whitelist, Ipguard, Scope and Device
--   are the matching methods, Check is check_compliance and batch_check_compliance, Entries and
--   Firewall are the blacklist rows and the calls of a firewall, and Work, Reasons, Unblock, Block
--   and Apply are the stages of _apply_compliance_result, with its state passed from one to the
--   next: the terminal, the blacklist rows, the requests and events so far, and the flag
--   `unblocked`. Settings are the getters of the settings, over the configured texts; Counts the
--   counts of misses of a device; Recalc is recalculate_all_compliance, with the decision for one
--   terminal, its loop in Recalc/Loop, and Recalc/Rounds for a sequence of runs; Initial is
--   apply_initial_compliance_result; Batch is auto_block_non_compliant, with its targets, the requests
--   it sends and its counts; Sweep is auto_unblock_compliant, with its groups of rows.
-- - Expiry: cleanup_expired_blacklist (backend/app/services/terminal_service.py), which closes expired
--   rows and sets their terminals free.
-- - Security: backend/app/core/security.py. The key-value store is an interface of commands that may
--   raise; Security/Store says what the commands do to the values, and Login and Tokens rely on it.
--   Time does not pass within a sequence of calls, so no key of the store runs out.
-- - Reconcile: backend/app/services/firewall_reconciliation_service.py. The lists of blocked
--   addresses are compared with the rows for each firewall, and blocked terminals without a row are
--   repaired. Run is the loop over the firewalls.
--
-- A query over a table is a selection from the list of its rows, in the order of the list. The data
-- that the caches load are arguments. The answers of a firewall are a parameter, a function of the
-- firewall and the address, whose `none` is an exception. A result read by scalar_one_or_none()
-- with several rows raises an exception; where the source swallows it, the model goes on as the
-- source does. Rows that a recalculation closes are held unflushed until a batch ends or a row is
-- updated. Loops over lists are structural recursion, so no fuel is needed. The objects of a
-- session are rows of the model's lists, found by their ids; a call reads the clock once.
--
-- Not modelled: logging and the audit log (the audit entry that _apply_compliance_result returns
-- included), the cache loaders, the lock of the recalculation and the other batch jobs, the SQL of
-- searches and statistics, the HTTP interface, data collection, notification channels, backups,
-- directory clients and the frontend.
pub mod Prelude
pub mod Ipv4
pub mod Mac
pub mod Models
pub mod IpRange
pub mod BlockTime
pub mod Comments
pub mod Exclusion
pub mod Reconcile
pub mod Expiry
pub mod Scopes
pub mod Security
pub mod Compliance
mod Tests
