-- ===== src/Http/Messages/Coherence.antt =====
-- How the handlers keep the cache of the list and the store in step.
use otus_app.Base.{◌≡◌, refl, false, List, [], ◌∷◌, Option, none, some}
use otus_app.Text.{Text, codes}
use otus_app.Text.Trim.{is_blank}
use otus_app.Messaging.{Message, ok, service_create, service_list}
use otus_app.Messaging.Validation.{validate_text_of_visible}
use otus_app.Http.{Request, header_get, write_json, messages_body, message_body}
use otus_app.Http.Messages.{
  Api, Cache, cache_key, create_message, create_decoded, create_valid, after_create, forget_cached,
  list_messages, list_with, list_cached, answer_list, fill_cache, hit_response,
}

-- What the cache promises while it is reachable: a deleted key is missing, a stored one is found, and
-- reading changes nothing.
pub record IsCache {W : Type 0} (c : Cache W) : Type 0 where
  pub get-delete : (k : Text) (w : W) → c.get k (c.delete k w) ≡ (none, c.delete k w)
  pub get-set : (k v : Text) (w : W) → c.get k (c.set k v w) ≡ (some v, c.set k v w)

module _ {W : Type 0} (api : Api W) (c : Cache W) (law : IsCache c) where
  -- With a cache that forgets a deleted key: after a createMessage whose store succeeded, the
  -- answer is 201 with the message, and the next listMessages reads the store and not the cache.
  pub list_after_create :
      (decode : Text → Option Text) (marshal : List Message → Option Text) (r : Request) (w v : W)
      (text : Text) (m : Message)
      → api.cache ≡ some c
      → decode r.body ≡ some text
      → is_blank text ≡ false
      → service_create api.store text (header_get r (codes "Idempotency-Key")) w ≡ (ok m, v)
      → (let w' = (create_message api decode r w).1 in
          ((create_message api decode r w).0 ≡ write_json [] 201 (message_body m))
          × (list_messages api marshal w'
              ≡ answer_list (some c) marshal (service_list api.store w')))
  unfolding create_message create_decoded create_valid after_create list_messages list_with
      list_cached forget_cached
  list_after_create decode marshal r w v text m e d b h =
      rw (d, validate_text_of_visible text b, h, e) (refl, rw (law.get-delete) refl)

  -- With a cache that finds what was stored: after listMessages missed the cache, read the store
  -- and encoded the messages, its answer is marked MISS, and the next listMessages answers with
  -- the encoded text marked HIT and changes nothing.
  pub list_after_list :
      (marshal : List Message → Option Text) (w v u : W) (ms : List Message) (raw : Text)
      → api.cache ≡ some c
      → c.get cache_key w ≡ (none, v)
      → service_list api.store v ≡ (ok ms, u)
      → marshal ms ≡ some raw
      → (let (first, w') = list_messages api marshal w in
          (first ≡ write_json ((codes "X-Cache", codes "MISS") ∷ []) 200 (messages_body ms))
          × (list_messages api marshal w' ≡ (hit_response raw, w')))
  unfolding list_messages list_with list_cached answer_list fill_cache
  list_after_list marshal w v u ms raw e g h j = rw (e, g, h, j) (refl, rw (law.get-set) refl)
