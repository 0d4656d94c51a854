-- ===== src/Dict.antt =====
-- `HashMap` as an association list. The order of the list stands for the map's unspecified order of
-- iteration; theorems about every list hold for every order.
mod Laws
pub use Laws.*
