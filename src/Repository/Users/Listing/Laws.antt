-- ===== src/Repository/Users/Listing/Laws.antt =====
-- What a listing of users answers.
use go_with_me.World.{World}
