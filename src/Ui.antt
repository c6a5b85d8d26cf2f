-- ===== src/Ui.antt =====
-- lytecache-cli/cmd/lytecache/ui: the login of the web interface, that is the limiter of failed logins
-- (ratelimit.go), the session cookies (session.go), and the checks on each request and at the
-- start (auth.go). A time is its number of nanoseconds since the zero time.
pub mod Session
pub mod Logout
pub mod Limiter
pub mod Backoff
pub mod Guard
pub mod Admission
