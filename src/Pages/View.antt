-- ===== src/Pages/View.antt =====
-- What the pages have in common: the handling of a thrown error, the body of a table.
use nexus_cloud_identity_acc.Common.{
  String, Bool, true, false, Option, none, some, truthy, if◌then◌else◌, List, [], ◌∷◌, map,
}
use nexus_cloud_identity_acc.Browser.{Thrown, error_of, other_value}

-- `if (err instanceof Error) { setError(err.message); }`
abbrev pub message_if : Option String → Thrown → Option String
message_if old (error_of m) = some m
message_if old other_value = old

pub data Table (R : Type 0) : Type 0 where
  loading : Table R
  rows : List R → Table R
  empty : Table R

-- `isLoading ? … : xs.length > 0 ? xs.map(row) : …`
abbrev pub table_of : {A R : Type 0} → Bool → (A → R) → List A → Table R
table_of true row xs = loading
table_of false row [] = empty
table_of false row (x ∷ xs) = rows (map row (x ∷ xs))

-- the title and the line below it
pub record Heading : Type 0 where
  pub title : String
  pub subtitle : String

-- a `Link` of the router
pub record Link : Type 0 where
  pub text : String
  pub to : String

-- a card of fixed text: its title, its badge, its text
pub record Note : Type 0 where
  pub title : String
  pub badge : String
  pub text : String

-- `error && …`: the text of the alert
abbrev pub alert_of : Option String → Option String
alert_of error = if truthy error then error else none
