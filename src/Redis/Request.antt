-- ===== src/Redis/Request.antt =====
-- proc/redis/request.go: the requests that are split into one request for each key, and SCAN. A
-- request's hooks are the model's own calls, and the raw request keeps every response it is given.
pub mod Split
pub mod Merge
pub mod Parts
pub mod Scan
pub mod ReadOnly
pub mod Cursor
mod Tests
