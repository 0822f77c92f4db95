-- ===== src/Protocol/Output/Loop/Enough.antt =====
-- The fuel of the loop over new packets is enough.
use mieru.Protocol.Segment.{Segment}
