-- ===== src/JsMap.antt =====
-- The JavaScript `Map` as the source uses it: a list of entries with distinct keys in the order of
-- insertion. A write to a key that is there keeps its place.
pub mod Defs
pub mod Laws
