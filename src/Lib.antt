-- ===== src/Lib.antt =====
-- A model of the Educates training platform. The platform runs interactive workshops on Kubernetes
-- clusters: the session manager turns custom resources into workshop environments and sessions, a
-- training portal hands the sessions of one deployment out to users, and the lookup service stands
-- in front of the portals of many clusters.
--
-- Modelled is the core of the lookup service (lookup-service/service).
-- - Lookup/Caches: the cached clusters, portals, environments and sessions (caches/*.py), each a
--   record with the source's fields, kept in dictionaries that hold their entries in order (Dict),
--   and the operations of the classes under their own names. An object of the source points back to
--   the one that holds it. Here the path to an object is passed along in its place.
-- - Lookup/Events: the handlers of handlers/clusters.py, functions from an event and the cluster's
--   state to the next state. Each runs under the cluster's lock, so `watch`, the run over a list of
--   events, is all that one cluster sees.
-- - Lookup/Selectors, Lookup/Tenants: helpers/selectors.py, caches/tenants.py and
--   handlers/tenants.py: which portals a tenant may use. A match that raises is `none`.
-- - Lookup/Caches/Clients, Lookup/Auth: caches/clients.py, handlers/clients.py and
--   routes/authnz.py: passwords, tokens, roles. A handler is `pass` or `refuse` with a status.
-- - Lookup/Ranking, Lookup/Remote, Lookup/Workshops: routes/workshops.py and the client session of
--   caches/portals.py: how a request for a workshop picks an environment and asks its portal.
--
-- Also modelled is how the training portal gives sessions to users
-- (training-portal/src/project/apps/workshops).
-- - Portal/Models: models.py: the rows of the database as records, its queries as counts and tests
--   over the list of rows, and the marks of a session.
-- - Portal/Params, Portal/Reserved, Portal/Sessions: manager/sessions.py: the parameters of a session,
--   the sessions made in reserve, and the sessions of users. Each function runs under one lock and in
--   one transaction, so it is a function from the database to the next.
--
-- - Portal/Expiry: models.py: the time that a session has left, and its extension.
-- - Portal/Termination: manager/sessions.py: how reserved sessions are given up.
-- - Portal/Lifecycle, Portal/Cleanup: views/session.py, and manager/cleanup.py with the end of
--   create_workshop_session, for a session that is still starting: what becomes of one session. A task that deletes a session holds the rows that
--   it was made with.
-- - Portal/Durations, Portal/Environments: manager/environments.py: how environments are made, refreshed
--   and given up. What it schedules is an operation of its own.
-- - Portal/Configuration, Portal/Updates: manager/portal.py: the settings that the portal's resource gives, what
--   is scheduled for them (`run_tasks` is those tasks), and the change of a workshop's definition.
-- - Portal/History: the operations of all of these, in any order, but for a change of the portal's own
--   settings.
-- Times are whole microseconds, as Python's dates have them.
--
-- And the secrets manager (secrets-manager/handlers), which copies secrets between the namespaces of a
-- cluster and names them in service accounts.
-- - Secrets: the selectors that both share.
-- - Secrets/Copier: secretcopier_funcs.py: `decide_secret` is update_secret from the replies of the API
--   to the write; Secrets/Copier/Cluster has the loops and the events, on a list of secrets. The event of a
--   secret runs the copier's reconcile_secret and then the injector's; the two are not joined here.
-- - Secrets/Injector: secretinjector_funcs.py, on a list of service accounts.
--
-- Of the session manager (session-manager/handlers) the handlers are modelled that give users their
-- sessions' objects.
-- - Manager/Variables: substitute_variables of helpers.py, on the values of JSON.
-- - Manager/Allocation: workshopallocation.py: what is read and what comes of it (State), what happens while
--   something is missing (Waiting), the objects that are made (Objects), and the handler.
-- - Manager/Requests: workshoprequest.py, on a store of sessions.
--
-- Prelude has what all of them share; Glob is Python's fnmatch, Decimal its `str` of a number.
--
-- Parameters: PyJWT (`Jwt`: what encoding and decoding give), and HTTP (`Http`: each call takes the
-- state of the world and gives a reply and the next state, so the databases may change while a
-- request waits). No law is asked of either. `xeger` gives a random text for a pattern (rstr).
-- For the secrets manager: which writes the Kubernetes API refuses (`Writes`).
-- For the session manager: Python's base64, the replies of the Kubernetes API, and kopf's `adopt`, of which
-- `Keeps` asks what kopf documents: it adds to an object and changes no name, namespace or label.
--
-- Loops are recursion on lists. The only fuel is in `decimal`, which takes one more than the number
-- it writes; a number has fewer digits than that. The rounds of a substitution are six, and the draws of
-- a session's name at most 20, as in the source. Python's numbers are unbounded, as ℕ is; the
-- differences in the scores of environments, which may be negative, are integers.
--
-- Not modelled: logging; the list of workshops and the other REST reports; the kubeconfig of a
-- cluster and the threads that watch it; of the training portal the robot's account, the catalog and the
-- requests for environments; of the session manager the handlers of environments, sessions and portals,
-- which build resources and call the Kubernetes API, and the merging of overlays.
pub mod Decimal
pub mod Dict
pub mod Glob
pub mod Lookup
pub mod Manager
pub mod Portal
pub mod Prelude
pub mod Secrets
