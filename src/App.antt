-- ===== src/App.antt =====
-- lib/lws/app.js: path patterns and the dispatch of a request.
pub mod Path
pub mod Dispatch
