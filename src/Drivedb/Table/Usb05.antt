-- ===== src/Drivedb/Table/Usb05.antt =====
-- backends/exec/drivedb.h, lines 6169 to 6318.
use Prim.Native.String.{String}

unfoldable pub usb_text_05 : String
usb_text_05 =
    "  },\n  { \"USB: Toshiba PX1396E-3T01; Sunplus\", // similar to Dura Micro 501\n    \"0x0930:0x0b09\",\n    \"\",\n    \"\",\n    \"-d usbsunplus\"\n  },\n  { \"USB: Toshiba Stor.E Steel; Sunplus\",\n    \"0x0930:0x0b11\",\n    \"\",\n    \"\",\n    \"-d usbsunplus\"\n  },\n  { \"USB: Toshiba Stor.E; \",\n    \"0x0930:0x0b1[9ab]\",\n    \"\", // 0x0001\n    \"\",\n    \"-d sat\"\n  },\n  { \"USB: Toshiba; Sunplus\",\n    \"0x0930:0xa002\",\n    \"\", // 0x0103\n    \"\",\n    \"-d usbsunplus\"\n  },\n  // Lumberg, Inc.\n  { \"USB: Toshiba Stor.E; Sunplus\",\n    \"0x0939:0x0b1[56]\",\n    \"\",\n    \"\",\n    \"-d usbsunplus\"\n  },\n  { \"USB: Toshiba Stor.E D10; Initio INIC-1610PL\",\n    \"0x0939:0x0b13\",\n    \"\",\n    \"\",\n    \"-d sat,12\"\n  },\n  // Kingston\n  { \"USB: Kingston DataTraveller; \",\n    \"0x0951:0x177f\",\n    \"\",\n    \"\",\n    \"-d sat,12\"\n  },\n  { \"USB: Kingston; \",\n    \"0x0951:0x1780\", // XS1000\n    \"\", // 0x100\n    \"\",\n    \"-d sat\"\n  },\n  // Apricorn\n  { \"USB: Apricorn; \",\n    \"0x0984:0x0(040|301|320)\", // 0x0040: Apricorn SATA Wire\n    \"\", // 0x0301 (0x0201): Corsair SSD & HDD Cloning Kit\n    \"\", // 0x0320 (0x0133): Apricorn EZ-UP3 (Initio INIC-3607)\n    \"-d sat\"\n  },\n  // Neodio Technologies\n  { \"USB: Neodio; Initio INIC-1810PL\",\n    \"0x0aec:0x3050\",\n    \"\", // 0x0100\n    \"\",\n    \"-d sat\"\n  },\n  // Asus (?)\n  { \"USB: ; \",\n    \"0x0b05:0x17f8\", // ASUSTek T100TA\n    \"\", // 0x0100\n    \"\",\n    \"-d sat\"\n  },\n  { \"USB: ; ASMedia ASM236x\",\n    \"0x0b05:0x1932\", // Asus ROG Strix Arion enclosure\n    \"\", // 0x0100\n    \"\",\n    \"-d sntasmedia\"\n  },\n  // Seagate\n  { \"USB: Seagate External Drive; Cypress\",\n    \"0x0bc2:0x0503\",\n    \"\", // 0x0240\n    \"\",\n    \"-d usbcypress\"\n  },\n  { \"USB: Seagate FreeAgent; \",\n    \"0x0bc2:0x(3008|50(31|a1))\",\n    \"\",\n    \"\",\n    \"-d sat,12\" // 0x50a1: \"-d sat\" does not work (ticket #151)\n  },\n  { \"USB: Seagate FireCuda Gaming SSD; ASMedia ASM2364\",\n    \"0x0bc2:0xaa1a\",\n    \"\", // 0x100\n    \"\",\n    \"-d sntasmedia\"\n  },\n  { \"USB: Seagate; \",\n    \"0x0bc2:0x....\",\n    \"\",\n    \"\",\n    \"-d sat\"\n  },\n  // Realtek\n  { \"USB: ; Realtek RTL9201\", // USB->SATA\n    \"0x0bda:0x9201\",\n    \"\", // 0xf200\n    \"\",\n    \"-d sat\"\n  },\n  { \"USB: ; Realtek RTL9210\", // USB->PCIe (NVMe)\n    \"0x(0bda|0dd8):0x9210\", // 0x0bda: Realtek, 0x0dd8: Netac WH51\n    \"\", // 0x2100\n    \"\",\n    \"-d sntrealtek\"\n  },\n  { \"USB: ; Realtek RTL9211\", // USB->PCIe (NVMe) or SATA\n    \"0x(0bda|2eb9):0x9211\", // 0x0bda: guessed, 0x2eb9: Sabrent EC-WPTF\n    \".*\", // fall through to next entry and report ambiguous result\n    \"\",\n    \"-d sntrealtek\" // NVMe or ...\n  },\n  { \"USB: ; Realtek RTL9211\",\n    \"0x(0bda|2eb9):0x9211\",\n    \"\",\n    \"\",\n    \"\" // ... SATA (unsupported)\n  },\n  { \"USB: ; Realtek RTL9220\", // USB->PCIe (NVMe) or SATA\n    \"0x0bda:0x9220\",\n    \"\",\n    \"\",\n    \"-d sntrealtek\" // ... SATA (requires `-d sat`)\n  },\n  // Addonics\n  { \"USB: Addonics HDMU3; \", // (ticket #609)\n    \"0x0bf6:0x1001\",\n    \"\", // 0x0100\n    \"\",\n    \"\"\n  },\n  // Dura Micro\n  { \"USB: Dura Micro; Cypress\",\n    \"0x0c0b:0xb001\",\n    \"\", // 0x1110\n    \"\",\n    \"-d usbcypress\"\n  },\n  { \"USB: Dura Micro; Initio\",\n    \"0x0c0b:0xb136\","
