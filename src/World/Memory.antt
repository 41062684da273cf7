-- ===== src/World/Memory.antt =====
-- Clients held in memory, which keep every law that the model asks of Prisma and of the cache:
-- the hypotheses can be met, and tests can run.
use talkertive_chat_app.Base.{
  ℕ, ◌+◌, ◌<◌, String, true, false, ◌≡◌, ◌≢◌, refl, Option, none, some, [], ◌∷◌, ltb, ◌==◌,
  string_eq, pair_eq, id_iff, if◌then◌else◌, arith,
}
use talkertive_chat_app.Prisma.{reference}
use talkertive_chat_app.World.CacheManager.{Entries}
use talkertive_chat_app.World.State.{
  Clients, World, Fresh, user_key, room_key, schedule_key, like_key, member_key, message_key,
  attachment_key, banner_key,
}

module _ {V : Type 0} where
  abbrev at : ℕ → String → Entries V → Option V
  at now j [] = none
  at now j ((k, v, end) ∷ c) = if k == j then (if ltb now end then some v else none) else at now j c

  abbrev without : String → Entries V → Entries V
  without j [] = []
  without j ((k, v, end) ∷ c) = if k == j then without j c else (k, v, end) ∷ without j c

  at-cons_self :
      (later now : ℕ) (k : String) (v w : V) (ttl : ℕ) (c : Entries V)
      → at later k ((k, v, now + ttl) ∷ c) ≡ some w
      → (w ≡ v) × (later < now + ttl)
  at-cons_self later now k v w ttl c h = ground (arith, id_iff k k)

  at-cons_ne :
      (later now : ℕ) (j k : String) (v : V) (ttl : ℕ) (c : Entries V) {w : V}
      → j ≢ k
      → at later j ((k, v, now + ttl) ∷ c) ≡ some w
      → at later j c ≡ some w
  at-cons_ne later now j k v ttl c ne h = ground (arith, id_iff k j)

  at-without_self : (now : ℕ) (k : String) (c : Entries V) → at now k (without k c) ≡ none
  at-without_self now k [] = refl
  at-without_self now k ((j, v, end) ∷ c) = ground (arith, at-without_self now k c)

  at-without_ne :
      (now : ℕ) (j k : String) (c : Entries V) {w : V}
      → at now j (without k c) ≡ some w
      → at now j c ≡ some w
  at-without_ne now j k [] h = h
  at-without_ne now j k ((i, v, end) ∷ c) {w} h = ground (
    arith,
    at-without_ne now j k c {w = w},
    id_iff i k,
    id_iff i j,
    at-without_self now k c,
    id_iff k j,
  )

unfoldable pub memory : Clients
unfolding reference at-cons_self at-cons_ne at-without_self at-without_ne
memory = record {
  user = reference user_key;
  room = reference room_key;
  schedule = reference schedule_key;
  like = reference like_key;
  room_member = reference member_key;
  message = reference message_key;
  attachment = reference attachment_key;
  banner = reference banner_key;
  cache = record {
    get = at;
    set = λ now k v ttl c. (k, v, now + ttl) ∷ c;
    del = without;
    get-set_self = at-cons_self;
    get-set_ne = λ later now j k v ttl c ne h. at-cons_ne later now j k v ttl c ne h;
    get-del_self = at-without_self;
    get-del_ne = λ now j k c h. at-without_ne now j k c h;
  };
  s3_accepts = λ c. true;
  cloudfront_domain = "cdn.example";
  slugify = λ name. name;
  contains = λ name search. elim name [ none ↦ false | some n ↦ n == search ];
}

abbrev pub empty : World
empty = record {
  users = [];
  rooms = [];
  schedules = [];
  likes = [];
  room_members = [];
  messages = [];
  attachments = [];
  banners = [];
  cache = [];
  s3 = [];
}

abbrev pub fresh : Fresh
fresh = record { id = "new"; child_id = λ n. "child"; uuid = "uuid"; suffix = "beef"; now = 1_000 }
