-- ===== src/Redis/Contents.antt =====
-- What the operations of the Redis store do to the contents of the server.
use authsentinel.Base.{
  ◌≡◌, refl, ap, ◌∙◌, true, false, String, Option, none, some, Result, ok, err, ok_injective, ℤ,
  ◌==◌, arith,
}
use authsentinel.Agent.Deps.Spec.{
  Slot, session_of, login_of, lock_of, Item, a_lock, session_item, login_item,
}
use authsentinel.Session.{KeyLayout}
use authsentinel.Redis.{parsed, read, written, write, seconds, obtained}
use authsentinel.Redis.Protocol.{Reply, value, missing, failed, Client, Json, ClientLaws}

abbrev pub decoded : {A : Type 0} → Result A → Option A
decoded (ok a) = some a
decoded (err _) = none

abbrev pub stored : {A : Type 0} → (String → Result A) → Option String → Option A
stored decode none = none
stored decode (some text) = decoded (decode text)

abbrev pub item : Json → Slot → Option String → Option Item
item json (session_of _) o = session_item (stored json.read_session o)
item json (login_of _) o = login_item (stored json.read_pkce o)
item json (lock_of _) none = none
item json (lock_of _) (some _) = some a_lock

module _ {R : Type 0} (client : Client R) (json : Json) (layout : KeyLayout)
    (laws : ClientLaws client) where
  pub parsed-same :
      {A : Type 0} (op : String) (r : Result A) (s : R) (j : String)
      → laws.contents (parsed client json layout op r s).1 j ≡ laws.contents s j
  parsed-same op (ok a) s j = laws.contents-metric op true j s
  parsed-same op (err e) s j = laws.contents-metric op false j s

  pub read-same :
      {A : Type 0} (op : String) (decode : String → Result A) (r : Reply String × R) (j : String)
      → laws.contents (read client json layout op decode r).1 j ≡ laws.contents r.1 j
  read-same op decode (value text, s) j = parsed-same op (decode text) s j
  read-same op decode (missing, s) j = laws.contents-metric op true j s
  read-same op decode (failed e, s) j = laws.contents-metric op false j s

  pub parsed-decoded :
      {A : Type 0} (op : String) (r : Result A) (s : R) (o : Option A)
      → (parsed client json layout op r s).0 ≡ ok o
      → decoded r ≡ o
  parsed-decoded op (ok a) s o h = ok_injective h
  parsed-decoded op (err e) s o h = ground (arith, h)

  pub read-stored :
      {A : Type 0} (op : String) (decode : String → Result A) (r : Reply String × R) (o : Option A)
      (now : Option String)
      → ((v : String) → r.0 ≡ value v → now ≡ some v)
      → (r.0 ≡ missing → now ≡ none)
      → (read client json layout op decode r).0 ≡ ok o
      → stored decode now ≡ o
  read-stored op decode (value text, s) o now found lost h =
      ap (stored decode) (found text refl) ∙ parsed-decoded op (decode text) s o h
  read-stored op decode (missing, s) o now found lost h =
      ap (stored decode) (lost refl) ∙ ok_injective h
  read-stored op decode (failed e, s) o now found lost h = ground (arith, h)

  pub written-same :
      (op : String) (r : Result (Unit {0}) × R) (j : String)
      → laws.contents (written client json layout op r).1 j ≡ laws.contents r.1 j
  written-same op (ok u, s) j = laws.contents-metric op true j s
  written-same op (err e, s) j = laws.contents-metric op false j s

  pub written-ok :
      (op : String) (r : Result (Unit {0}) × R)
      → (written client json layout op r).0 ≡ ok tt
      → r.0 ≡ ok tt
  written-ok op (ok u, s) h = h
  written-ok op (err e, s) h = h

  pub write-elsewhere :
      (op key j : String) (text : Result String) (ttl : ℤ) (s : R)
      → (key == j) ≡ false
      → laws.contents (write client json layout op key text ttl s).1 j ≡ laws.contents s j
  write-elsewhere op key j (ok text) ttl s h =
      written-same op (client.set key text (seconds ttl) s) j
      ∙ laws.set-elsewhere key text j (seconds ttl) s h
  write-elsewhere op key j (err e) ttl s h = laws.contents-metric op false j s

  pub write-stored :
      {A : Type 0} (decode : String → Result A) (a : A) (op key : String) (text : Result String)
      (ttl : ℤ) (s : R)
      → ((v : String) → text ≡ ok v → decode v ≡ ok a)
      → (write client json layout op key text ttl s).0 ≡ ok tt
      → stored decode (laws.contents (write client json layout op key text ttl s).1 key) ≡ some a
  write-stored decode a op key (ok text) ttl s trip h =
      let done = written-ok op (client.set key text (seconds ttl) s) h in
      ap (stored decode) (
        written-same op (client.set key text (seconds ttl) s) key
        ∙ laws.contents-set key text (seconds ttl) s done)
      ∙ ap decoded (trip text refl)
  write-stored decode a op key (err e) ttl s trip h = ground (arith, h)

  pub obtained-same :
      (r : Reply String × R) (j : String)
      → laws.contents (obtained client json layout r).1 j ≡ laws.contents r.1 j
  obtained-same (value v, s) j = laws.contents-metric "refresh_lock_obtain" (v == "OK") j s
  obtained-same (missing, s) j = laws.contents-metric "refresh_lock_obtain" false j s
  obtained-same (failed e, s) j = laws.contents-metric "refresh_lock_obtain" false j s

  pub obtained-value :
      (r : Reply String × R)
      → (obtained client json layout r).0 ≡ ok true
      → (v : String) × (r.0 ≡ value v)
  obtained-value (value v, s) h = (v, refl)
  obtained-value (missing, s) h = ground (arith, h)
  obtained-value (failed e, s) h = ground (arith, h)

  pub get-same :
      {A : Type 0} (op : String) (decode : String → Result A) (key j : String) (s : R)
      → laws.contents (read client json layout op decode (client.get key s)).1 j ≡ laws.contents s j
  get-same op decode key j s = read-same op decode (client.get key s) j ∙ laws.contents-get key j s

  pub get-stored :
      {A : Type 0} (op : String) (decode : String → Result A) (key : String) (s : R) (o : Option A)
      → (read client json layout op decode (client.get key s)).0 ≡ ok o
      → stored decode (laws.contents s key) ≡ o
  get-stored op decode key s o =
      read-stored op decode (client.get key s) o (laws.contents s key) (λ v. laws.get-value key v s)
        (laws.get-missing key s)

  pub del-stored :
      (op key : String) (s : R)
      → (written client json layout op (client.del key s)).0 ≡ ok tt
      → laws.contents (written client json layout op (client.del key s)).1 key ≡ none
  del-stored op key s h =
      let done = written-ok op (client.del key s) h in
      written-same op (client.del key s) key ∙ laws.contents-del key s done

  pub del-elsewhere :
      (op key j : String) (s : R)
      → (key == j) ≡ false
      → laws.contents (written client json layout op (client.del key s)).1 j ≡ laws.contents s j
  del-elsewhere op key j s h = written-same op (client.del key s) j ∙ laws.del-elsewhere key j s h

  pub lock-stored :
      (k : String) (now before : Option String) (v : String)
      → (v ≡ "OK") × (before ≡ none) × (now ≡ some "1")
      → (item json (lock_of k) before ≡ none) × (item json (lock_of k) now ≡ some a_lock)
  lock-stored k now before v (_, free, taken) =
      (ap (item json (lock_of k)) free, ap (item json (lock_of k)) taken)

  pub nx-stored :
      (k key : String) (ttl : ℤ) (s : R)
      → (obtained client json layout (client.set_nx key "1" ttl s)).0 ≡ ok true
      → (item json (lock_of k) (laws.contents s key) ≡ none)
        × (item json
              (lock_of k)
              (laws.contents (obtained client json layout (client.set_nx key "1" ttl s)).1 key)
            ≡ some a_lock)
  nx-stored k key ttl s h =
      let reply = client.set_nx key "1" ttl s in
      let (v, answer) = obtained-value reply h in
      let (free, taken) = lock-stored k _ _ v (laws.set_nx-value key "1" v ttl s answer) in
      (free, ap (item json (lock_of k)) (obtained-same reply key) ∙ taken)

  pub nx-held :
      (k key : String) (ttl : ℤ) (s : R) (now : Option String)
      → laws.contents s key ≡ now
      → item json (lock_of k) now ≡ some a_lock
      → item json
          (lock_of k)
          (laws.contents (obtained client json layout (client.set_nx key "1" ttl s)).1 key)
        ≡ some a_lock
  nx-held k key ttl s none e h = absurd (ground (arith, h))
  nx-held k key ttl s (some old) e h =
      let reply = client.set_nx key "1" ttl s in
      ap (item json (lock_of k)) (obtained-same reply key ∙ laws.set_nx-taken key "1" old ttl s e)
